-- ===== src/Storage/Workflow/Instance/Progress.antt =====
-- That the handlers of a workflow instance in pkg/storage/cmd_handler_workflow.go do not end the
-- process.
use busybee.Storage.Codec.{Codec}

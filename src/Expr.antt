-- ===== src/Expr.antt =====
-- pkg/expr: the operators, variables and results of rule expressions. The parser and the tree that
-- it builds are another project's (fagongzi/expr); it calls an operator with the left value and the
-- right expression.
pub mod Run
pub mod Value
pub mod Ops
pub mod Vars
pub mod Runtime
pub mod Names
mod Tests

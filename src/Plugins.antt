-- ===== src/Plugins.antt =====
-- The compiler plugins of src/krepe/compiler_plugins: they find the views inside a functor and put the calls that
-- register them in front of the body of `krepe::replay_functor`.
pub mod Syntax
pub mod Walk
pub mod Run
pub mod Clang
pub mod Gcc
pub mod GccVersion
pub mod Agree

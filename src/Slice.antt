-- ===== src/Slice.antt =====
-- Slices: gnb_patch/rk_slice_policy.c and .h, and the E2 control handler of
-- gnb_patch/ran_func_slice.c.
pub mod Policy
pub mod Assoc
pub mod Runtime
pub mod Control

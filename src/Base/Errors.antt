-- ===== src/Base/Errors.antt =====
-- include/tomato/err.h: the status codes that kernel functions return.
pub data Err : Type 0 where
  success internal_error invalid_argument out_of_resources : Err

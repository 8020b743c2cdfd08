-- ===== src/Errors.antt =====
-- `tlibc_error_code_t`: the codes that the program returns. The enumeration itself belongs to the
-- base library; the names are those that tutils/source/tlibc_string.c and the callers use.
use mathlib.Core.Bool.{Bool, true, false}

pub data ErrorCode : Type 0 where
  noerror error out_of_memory not_found syntax mismatch errno would_block bad_file : ErrorCode
  eof empty integer_overflow ignore please_read_enum_name file_is_already_on_the_stack : ErrorCode
  no_memory close tbus_not_enough_space too_many_socket : ErrorCode

-- The tests `r == E_TLIBC_NOERROR` and `r == E_TLIBC_WOULD_BLOCK`.
abbrev pub is_noerror : ErrorCode → Bool
is_noerror noerror = true
is_noerror _ = false

abbrev pub is_would_block : ErrorCode → Bool
is_would_block would_block = true
is_would_block _ = false

abbrev pub is_close : ErrorCode → Bool
is_close close = true
is_close _ = false

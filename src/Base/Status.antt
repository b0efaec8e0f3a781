-- ===== src/Base/Status.antt =====
-- Return codes. `int` results that are 0 on success are `Option Errno`, and `IOReturn` is a type of
-- its own.
use Prim.Native.Nat.{ℕ}
use mathlib.Core.Option.{Option, none, some}
use mathlib.Core.Bool.{Bool, true, false}

-- `other` is any further code that a foreign function returns.
pub data Errno : Type 0 where
  enomem einval enotsup eio eagain : Errno
  other : ℕ → Errno

-- Darwin's sys/errno.h gives EWOULDBLOCK the value of EAGAIN.
abbrev pub ewouldblock : Errno
ewouldblock = eagain

-- `none` is 0.
abbrev pub Code : Type 0
Code = Option Errno

abbrev pub success : Code
success = none

abbrev pub is_error : Code → Bool
is_error none = false
is_error (some e) = true

abbrev pub is_enomem : Errno → Bool
is_enomem enomem = true
is_enomem e = false

pub data IoReturn : Type 0 where
  kio_success kio_no_memory kio_io_error kio_unsupported kio_not_attached kio_bad_argument :
      IoReturn
  kio_not_writable : IoReturn

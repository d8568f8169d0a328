-- ===== src/Errno.antt =====
-- include/uv/errno.h and the `int` results: 0, or one of the negative `UV_E...` codes.
-- `uv_errno` is a code that a system call has given.
use libuv.Prelude.{ℕ}

pub data Errno : Type 0 where
  uv_einval uv_ebusy uv_enospc uv_enobufs uv_e2big uv_enomem uv_eafnosupport uv_ecanceled
        uv_ealready uv_ebadf uv_epipe uv_enotconn :
      Errno
  uv_errno : ℕ → Errno

pub data Status : Type 0 where
  ok : Status
  failed : Errno → Status

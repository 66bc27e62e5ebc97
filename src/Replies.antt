-- ===== src/Replies.antt =====
-- What an emulated system call gives to SetReturn of vmill/Runtime/Generic/SystemCallABI.h.
use vmill.Prelude.{ℕ}

-- The numbers of <errno.h> that the emulated system calls return, and those that come from the host.
pub data Errno : Type 0 where
  efault einval erange eagain etimedout enosys enomem eacces ebadfd eoverflow eperm esrch
        enametoolong :
      Errno
  of_host : ℕ → Errno

pub data Reply : Type 0 where
  returns : ℕ → Reply
  fails : Errno → Reply

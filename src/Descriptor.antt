-- ===== src/Descriptor.antt =====
-- setNonblocking and closeOnExec of src/utils.h. Whether fcntl succeeds is an argument; so are the
-- values of O_NONBLOCK and FD_CLOEXEC.
use Prim.Native.Nat.{bit_and, bit_or}
use graphserv.Prelude.{ℕ, ◌-◌, ◌≡◌, ◌↔◌, if◌then◌else◌, Bool, true, false, arith}

-- What the kernel keeps of a descriptor: F_GETFL and F_GETFD.
pub record Descriptor : Type 0 where
  pub status_flags : ℕ
  pub descriptor_flags : ℕ

-- The answers of fcntl: whether the flags are got, and whether they are set.
pub record Fcntl : Type 0 where
  pub gets : Bool
  pub sets : Bool

unfoldable pub set_nonblocking : ℕ → Fcntl → Bool → Descriptor → Descriptor × Bool
set_nonblocking o_nonblock answers on d =
    let opts =
      if on
      then bit_or d.status_flags o_nonblock
      else d.status_flags - bit_and d.status_flags o_nonblock in
    if answers.gets
    then (if answers.sets then (record d { status_flags = opts }, true) else (d, false))
    else (d, false)

unfoldable pub close_on_exec : ℕ → Fcntl → Descriptor → Descriptor × Bool
close_on_exec fd_cloexec answers d =
    if answers.gets
    then (if answers.sets
        then (record d { descriptor_flags = bit_or d.descriptor_flags fd_cloexec }, true)
        else (d, false))
    else (d, false)

-- setNonblocking answers true exactly if both calls succeed; otherwise the descriptor is as it was.
pub set_nonblocking_iff :
    (o_nonblock : ℕ) (answers : Fcntl) (on : Bool) (d : Descriptor)
    → (((set_nonblocking o_nonblock answers on d).1 ≡ true)
        ↔ ((answers.gets ≡ true) × (answers.sets ≡ true)))
      × ((set_nonblocking o_nonblock answers on d).1 ≡ false
          → (set_nonblocking o_nonblock answers on d).0 ≡ d)
unfolding set_nonblocking
set_nonblocking_iff o_nonblock answers on d = ground arith

-- closeOnExec answers true exactly if both calls succeed; otherwise the descriptor is as it was.
pub close_on_exec_iff :
    (fd_cloexec : ℕ) (answers : Fcntl) (d : Descriptor)
    → (((close_on_exec fd_cloexec answers d).1 ≡ true)
        ↔ ((answers.gets ≡ true) × (answers.sets ≡ true)))
      × ((close_on_exec fd_cloexec answers d).1 ≡ false
          → (close_on_exec fd_cloexec answers d).0 ≡ d)
unfolding close_on_exec
close_on_exec_iff fd_cloexec answers d = ground arith

-- ===== src/MqMessage/Posix.antt =====
-- The calls of the system's message queues (MqMessageService/MqMessageService.cpp, as it is built for
-- POSIX). The system is a parameter: its calls, what can be observed of it, and what POSIX says of
-- them. A descriptor is a number, and none is the -1 of a call that failed.
pub mod Laws
mod Tests
use shapeware.Base.{
  ℕ, zero, suc, ◌≡◌, ◌/◌, ◌*◌, Bool, true, false, List, [], ◌∷◌, ◌++◌, Option, none, some, ◌==◌,
  ◌&&◌, if◌then◌else◌, length, leb, ltb,
}
use shapeware.Base.Int.{ℤ, pos, negsuc}
use shapeware.Text.{Text}
use shapeware.StdMap.Laws.{or_value}

-- `struct mq_attr`; the flags and the number of messages are 0 in every call.
pub record MqAttr : Type 0 where
  pub mq_maxmsg : ℕ
  pub mq_msgsize : ℕ

abbrev pub max_messages : ℕ
max_messages = 32

abbrev pub iqrf_mq_buffer_size : ℕ
iqrf_mq_buffer_size = 64 * 1024

abbrev pub required : ℕ → MqAttr
required bufsize = record { mq_maxmsg = max_messages; mq_msgsize = bufsize / max_messages }

abbrev pub same_attributes : MqAttr → MqAttr → Bool
same_attributes a b = a.mq_maxmsg == b.mq_maxmsg && a.mq_msgsize == b.mq_msgsize

pub record System {ℓ} (S : Type ℓ) : Type ℓ where
  -- `mq_open` with O_RDONLY and O_CREAT
  pub mq_open_read : Text → MqAttr → S → Option ℕ × S
  -- `mq_open` with O_WRONLY
  pub mq_open_write : Text → S → Option ℕ × S
  pub mq_getattr : ℕ → S → Option MqAttr
  -- Whether the name is now free: the call returned 0, or failed with ENOENT.
  pub mq_unlink : Text → S → Bool × S
  -- The attributes of the queue that a name stands for, and of that of an open descriptor.
  pub named : S → Text → Option MqAttr
  pub opened : S → ℕ → Option MqAttr
  -- An opening gives a new descriptor, of the queue that has the name, or of a new queue with the
  -- attributes of the call; the descriptors open before stay open.
  pub open_attr :
      (name : Text) (a : MqAttr) (s s' : S) (d : ℕ)
      → mq_open_read name a s ≡ (some d, s')
      → opened s' d ≡ some (or_value (named s name) a)
  pub open_fresh :
      (name : Text) (a : MqAttr) (s s' : S) (d : ℕ)
      → mq_open_read name a s ≡ (some d, s')
      → opened s d ≡ none
  pub open_keeps :
      (name : Text) (a b : MqAttr) (s s' : S) (d e : ℕ)
      → mq_open_read name a s ≡ (some d, s')
      → opened s e ≡ some b
      → opened s' e ≡ some b
  pub getattr_opened : (d : ℕ) (s : S) → mq_getattr d s ≡ opened s d
  -- A name that was unlinked is free, and the queue stays for the descriptors that are open.
  pub unlink_frees : (name : Text) (s s' : S) → mq_unlink name s ≡ (true, s') → named s' name ≡ none
  pub unlink_keeps :
      (name : Text) (s s' : S) (r : Bool) (d : ℕ)
      → mq_unlink name s ≡ (r, s')
      → opened s' d ≡ opened s d

module _ {ℓ} {S : Type ℓ} (sys : System S) where
  open sys use {mq_open_read, mq_open_write, mq_getattr, mq_unlink}

  -- The end of `openMqRead` where the attributes of the queue are not those required.
  unfoldable pub replace_queue : Text → ℕ → ℕ → S → Option ℕ × S
  replace_queue name bufsize desc s =
      let (free, s') = mq_unlink name s in
      if free then mq_open_read name (required bufsize) s' else (some desc, s')

  unfoldable pub check_attributes : Text → ℕ → ℕ → S → Option ℕ × S
  unfolding replace_queue
  check_attributes name bufsize desc s = elim (mq_getattr desc s) [
    | none ↦ (some desc, s)
    | some act ↦
        if same_attributes act (required bufsize)
        then (some desc, s)
        else replace_queue name bufsize desc s
  ]

  unfoldable pub open_mq_read : Text → ℕ → S → Option ℕ × S
  unfolding check_attributes
  open_mq_read name bufsize s =
      let (desc, s') = mq_open_read name (required bufsize) s in
      elim desc [
        | none ↦ (none, s')
        | some zero ↦ (some zero, s')
        | some (suc d) ↦ check_attributes name bufsize (suc d) s'
      ]

  -- `mq_getattr` is called for the trace only.
  unfoldable pub open_mq_write : Text → ℕ → S → Option ℕ × S
  open_mq_write name bufsize s = mq_open_write name s

-- `readMq`, over what `mq_receive` returns: whether it succeeded, and the number of bytes.
unfoldable pub read_mq : ℤ → Bool × ℕ
read_mq (pos zero) = (false, 0)
read_mq (pos (suc n)) = (true, suc n)
read_mq (negsuc n) = (false, 0)

-- `writeMq`, over what `mq_send` returns: whether it succeeded, and the number of bytes.
unfoldable pub write_mq : ℕ → ℤ → Bool × ℕ
write_mq to_write (pos zero) = (true, to_write)
write_mq to_write _ = (false, to_write)

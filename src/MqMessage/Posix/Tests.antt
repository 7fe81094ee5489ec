-- ===== src/MqMessage/Posix/Tests.antt =====
-- A small system of message queues for the calls of MqMessageService/MqMessageService.cpp: names in a
-- list, and descriptors that count up from 1.
use shapeware.Base.{
  ℕ, suc, ◌≡◌, ◌⊎◌, ◌<◌, ◌≤◌, refl, true, List, [], ◌∷◌, Option, none, some, arith, ◌==◌,
  if◌then◌else◌, length,
}
use shapeware.Text.{Text, codes, text_eq}
use shapeware.StdMap.Laws.{or_value}
use shapeware.MqMessage.Posix.{MqAttr, required, System, open_mq_read}
use shapeware.MqMessage.Posix.Laws.{IsLeaked, open_mq_read-required}

abbrev lookup : List (Text × MqAttr) → Text → Option MqAttr
lookup [] name = none
lookup ((n, a) ∷ l) name = if text_eq n name then some a else lookup l name

abbrev remove : Text → List (Text × MqAttr) → List (Text × MqAttr)
remove name [] = []
remove name ((n, a) ∷ l) = if text_eq n name then remove name l else (n, a) ∷ remove name l

-- The latest descriptor stands first.
abbrev attr_of : List MqAttr → ℕ → Option MqAttr
attr_of [] d = none
attr_of (a ∷ l) d = if d == suc (length l) then some a else attr_of l d

lookup-remove : (name : Text) (l : List (Text × MqAttr)) → lookup (remove name l) name ≡ none
lookup-remove name [] = refl
lookup-remove name ((n, a) ∷ l) = ground (arith, lookup-remove name l)

attr_of-bound : (l : List MqAttr) (d : ℕ) (b : MqAttr) → attr_of l d ≡ some b → d ≤ length l
attr_of-bound [] d b h = absurd cc
attr_of-bound (a ∷ l) d b h = ground (arith, attr_of-bound l d b)

attr_of-fresh : (l : List MqAttr) (d : ℕ) → length l < d → attr_of l d ≡ none
attr_of-fresh [] d h = refl
attr_of-fresh (a ∷ l) d h = ground (arith, attr_of-fresh l d)

record Queues : Type 0 where
  names : List (Text × MqAttr)
  descriptors : List MqAttr

abbrev open_queue : Text → MqAttr → Queues → Option ℕ × Queues
open_queue name a s =
    let b = or_value (lookup s.names name) a in
    (
      some (suc (length s.descriptors)),
      record { names = (name, b) ∷ s.names; descriptors = b ∷ s.descriptors },
    )

open_queue-result :
    (name : Text) (a : MqAttr) (s s' : Queues) (d : ℕ)
    → open_queue name a s ≡ (some d, s')
    → (d ≡ suc (length s.descriptors))
      × (s'.descriptors ≡ or_value (lookup s.names name) a ∷ s.descriptors)
open_queue-result name a s s' d h = ground arith

abbrev small_system : System Queues
small_system = record {
  mq_open_read = open_queue;
  mq_open_write = λ name s. (none, s);
  mq_getattr = λ d s. attr_of s.descriptors d;
  mq_unlink = λ name s. (true, record s { names = remove name s.names });
  named = λ s name. lookup s.names name;
  opened = λ s d. attr_of s.descriptors d;
  open_attr = λ name a s s' d h. ground (arith, open_queue-result name a s s' d h);
  open_fresh = λ name a s s' d h.
      ground (arith, open_queue-result name a s s' d h, attr_of-fresh s.descriptors d);
  open_keeps = λ name a b s s' d e h o.
      ground (arith, open_queue-result name a s s' d h, attr_of-bound s.descriptors e b o);
  getattr_opened = λ d s. refl;
  unlink_frees = λ name s s' h. ground (arith, lookup-remove name s.names);
  unlink_keeps = λ name s s' r d h. ground arith;
}

abbrev other_attributes : MqAttr
other_attributes = record { mq_maxmsg = 10; mq_msgsize = 8192 }

abbrev old_queue : Queues
old_queue = record { names = (codes "/q", other_attributes) ∷ []; descriptors = [] }

abbrev opened_state : Queues
opened_state = (open_mq_read small_system (codes "/q") 65536 old_queue).1

open_mq_read-required_example :
    (attr_of opened_state.descriptors 2 ≡ some (required 65536))
    × ((other_attributes ≡ required 65536)
        ⊎ IsLeaked small_system old_queue opened_state other_attributes 2)
unfolding open_mq_read
open_mq_read-required_example =
    open_mq_read-required small_system (codes "/q") 65536 1 old_queue opened_state (λ _. refl) refl

-- ===== src/MqMessage/Posix/Laws.antt =====
-- Which queue `openMqRead` opens, and what it leaves open (MqMessageService/MqMessageService.cpp).
use shapeware.Base.{
  ℕ, zero, suc, ◌≡◌, ◌≢◌, refl, ap, ◌∙◌, ◌⊎◌, inl, inr, Bool, true, Option, none, some, arith,
  Bool-cases,
}
use shapeware.Text.{Text}
use shapeware.StdMap.Laws.{or_value}
use shapeware.MqMessage.Posix.{
  MqAttr, required, same_attributes, System, replace_queue, check_attributes, open_mq_read,
}

same_attributes-≡ : (a b : MqAttr) → same_attributes a b ≡ true → a ≡ b
same_attributes-≡ a b h = ground arith

module _ {ℓ} {S : Type ℓ} (sys : System S) where
  -- A descriptor of a queue with the attributes `a`, open in the later state and not in the earlier
  -- one, and not the one that the caller has.
  pub record IsLeaked (s s' : S) (a : MqAttr) (d : ℕ) : Type ℓ where
    pub leaked : ℕ
    pub not_open_before : sys.opened s leaked ≡ none
    pub open_after : sys.opened s' leaked ≡ some a
    pub not_returned : leaked ≢ d

  replace_queue-attributes :
      (name : Text) (bufsize d0 d : ℕ) (a : MqAttr) (s s' : S)
      → ((t : S) → (sys.mq_unlink name t).0 ≡ true)
      → sys.opened s d0 ≡ some a
      → replace_queue sys name bufsize d0 s ≡ (some d, s')
      → (sys.opened s' d ≡ some (required bufsize)) × (sys.opened s' d0 ≡ some a) × (d0 ≢ d)
  unfolding replace_queue
  replace_queue-attributes name bufsize d0 d a s s' frees o h =
      let t = (sys.mq_unlink name s).1 in
      let req = required bufsize in
      let u = ap {B = Bool × S} (λ b. (b, t)) (frees s) in
      let h' : sys.mq_open_read name req t ≡ (some d, s') = ground (arith, frees s) in
      let kept = sys.unlink_keeps name s t true d0 u ∙ o in
      (
        ground (arith, sys.open_attr name req t s' d h', sys.unlink_frees name s t u),
        sys.open_keeps name req a t s' d d0 h' kept,
        λ e. absurd (ground (arith, sys.open_fresh name req t s' d h', e, kept)),
      )

  check_attributes-required :
      (name : Text) (bufsize d0 d : ℕ) (a : MqAttr) (s s' : S)
      → ((t : S) → (sys.mq_unlink name t).0 ≡ true)
      → sys.opened s d0 ≡ some a
      → check_attributes sys name bufsize d0 s ≡ (some d, s')
      → (sys.opened s' d ≡ some (required bufsize))
        × ((a ≡ required bufsize) ⊎ ((sys.opened s' d0 ≡ some a) × (d0 ≢ d)))
  unfolding check_attributes
  check_attributes-required name bufsize d0 d a s s' frees o h =
      let read = sys.getattr_opened d0 s ∙ o in
      elim (Bool-cases (same_attributes a (required bufsize))) [
        | inl same ↦
            let e = same_attributes-≡ a (required bufsize) same in
            (ground (arith, read, same, e, o), inl e)
        | inr other ↦
            let h' : replace_queue sys name bufsize d0 s ≡ (some d, s') =
              ground (arith, read, other) in
            let (new, old, apart) = replace_queue-attributes name bufsize d0 d a s s' frees o h' in
            (new, inr (old, apart))
      ]

  open_mq_read-first :
      (name : Text) (bufsize d : ℕ) (s t s' : S) (r : Option ℕ)
      → ((t : S) → (sys.mq_unlink name t).0 ≡ true)
      → sys.mq_open_read name (required bufsize) s ≡ (r, t)
      → open_mq_read sys name bufsize s ≡ (some (suc d), s')
      → (sys.opened s' (suc d) ≡ some (required bufsize))
        × ((or_value (sys.named s name) (required bufsize) ≡ required bufsize)
            ⊎ IsLeaked s s' (or_value (sys.named s name) (required bufsize)) (suc d))
  unfolding open_mq_read
  open_mq_read-first name bufsize d s t s' none frees o h = absurd (ground arith)
  open_mq_read-first name bufsize d s t s' (some zero) frees o h = absurd (ground arith)
  open_mq_read-first name bufsize d s t s' (some (suc d0)) frees o h =
      let req = required bufsize in
      let b = or_value (sys.named s name) req in
      let open_now = sys.open_attr name req s t (suc d0) o in
      let h' : check_attributes sys name bufsize (suc d0) t ≡ (some (suc d), s') =
        ground (arith, o) in
      let (new, old) =
        check_attributes-required name bufsize (suc d0) (suc d) b t s' frees open_now h' in
      (
        new,
        elim old [
          | inl e ↦ inl e
          | inr (kept, apart) ↦ inr (record {
            leaked = suc d0;
            not_open_before = sys.open_fresh name req s t (suc d0) o;
            open_after = kept;
            not_returned = apart;
          })
        ],
      )

  -- Where unlinking a queue works and the descriptor is not 0, `openMqRead` gives a descriptor of a
  -- queue with the attributes that it requires: it has room for 32 messages, each of up to the size
  -- of the buffer by 32. But where the name stood for a queue with other attributes, a descriptor of
  -- that queue, opened by the call and not returned, stays open.
  pub open_mq_read-required :
      (name : Text) (bufsize d : ℕ) (s s' : S)
      → ((t : S) → (sys.mq_unlink name t).0 ≡ true)
      → open_mq_read sys name bufsize s ≡ (some (suc d), s')
      → (sys.opened s' (suc d) ≡ some (required bufsize))
        × ((or_value (sys.named s name) (required bufsize) ≡ required bufsize)
            ⊎ IsLeaked s s' (or_value (sys.named s name) (required bufsize)) (suc d))
  open_mq_read-required name bufsize d s s' frees h =
      let (r, t) = sys.mq_open_read name (required bufsize) s in
      open_mq_read-first name bufsize d s t s' r frees refl h

-- ===== src/MsgCmd/Laws.antt =====
-- What the command of MsgCmd sends, and what its activation leaves (examples/MsgCmd/MsgCmd.cpp).
use shapeware.Base.{
  ℕ, ◌≡◌, ◌≢◌, refl, ap, ◌∙◌, ◌⊎◌, inl, inr, Bool, true, false, ◌||◌, List, [], ◌∷◌, ◌++◌, Option,
  none, some, arith, if◌then◌else◌,
}
use shapeware.Text.{Text, codes, text_eq, is_empty, text_order, text_eq_iff}
use shapeware.StdMap.{insert, IsOrdered}
use shapeware.StdMap.Laws.{find-insert, find-erase, insert-IsOrdered, same_iff}
use shapeware.Command.Service.{other, CommandService, add_command, remove_command, find_command}
use shapeware.Command.Line.{is_space, take_word}
use shapeware.MqMessage.Service.{Service, Handler, set_message_handler}
use shapeware.MsgCmd.{
  activate, deactivate, drop_word, next_word, send_content, send_text, usage, do_cmd,
}

abbrev pub has_space : Text → Bool
has_space [] = false
has_space (c ∷ s) = is_space c || has_space s

-- A text that `>>` reads as one word.
abbrev pub IsWord : Text → Type 0
IsWord w = (has_space w ≡ false) × (is_empty w ≡ false)

take_word-append : (w s : Text) → has_space w ≡ false → take_word (w ++ b' ' ∷ s) ≡ w
unfolding take_word
take_word-append [] s h = refl
take_word-append (c ∷ w) s h = ground (arith, take_word-append w s)

drop_word-append : (w s : Text) → has_space w ≡ false → drop_word (w ++ b' ' ∷ s) ≡ b' ' ∷ s
unfolding drop_word
drop_word-append [] s h = refl
drop_word-append (c ∷ w) s h = ground (arith, drop_word-append w s)

next_word-append : (w s : Text) → IsWord w → next_word (w ++ b' ' ∷ s) ≡ (w, b' ' ∷ s)
unfolding next_word
next_word-append [] s h = absurd (ground (arith, h))
next_word-append (c ∷ w) s h =
    ground (arith, take_word-append (c ∷ w) s, drop_word-append (c ∷ w) s)

next_word-space : (s : Text) → next_word (b' ' ∷ s) ≡ next_word s
unfolding next_word
next_word-space s = refl

-- An answer and no message, or no answer and one message, which is not empty.
abbrev pub IsReply : Text × List Text → Type 0
IsReply (answer, sent) =
    ((is_empty answer ≡ false) × (sent ≡ []))
    ⊎ ((answer ≡ []) × ((m : Text) × ((sent ≡ m ∷ []) × (is_empty m ≡ false))))

IsReply-if :
    (b : Bool) (x y : Text × List Text) → IsReply x → IsReply y → IsReply (if b then x else y)
IsReply-if true x y hx hy = hx
IsReply-if false x y hx hy = hy

module _ (open_file : Text → Option Text) (par : Text → Text) where
  content-IsReply :
      (fname : Text) (file : Option Text) → IsReply (send_content open_file par fname file)
  unfolding send_content
  content-IsReply fname none = inl (refl, refl)
  content-IsReply fname (some []) = inl (refl, refl)
  content-IsReply fname (some (c ∷ s)) = inr (refl, (c ∷ s, (refl, refl)))

  text-IsReply : (text : Text) → IsReply (send_text open_file par text)
  unfolding send_text
  text-IsReply [] = inl (refl, refl)
  text-IsReply (c ∷ s) = inr (refl, (c ∷ s, (refl, refl)))

  -- Whatever is typed and whatever the files are, the command either answers something and sends
  -- nothing, or answers nothing and sends one message, which is not empty.
  do_cmd-IsReply : (params : Text) → IsReply (do_cmd open_file par params)
  unfolding do_cmd usage
  do_cmd-IsReply params =
      let args = next_word (next_word params).1 in
      let arg = (next_word args.1).0 in
      IsReply-if (text_eq args.0 (codes "h")) _ _ (inl (refl, refl)) (
        IsReply-if (text_eq args.0 (codes "f")) _ _ (content-IsReply arg (open_file arg))
          (IsReply-if (text_eq args.0 (codes "t")) _ _ (text-IsReply arg) (inl (refl, refl))))

  do_cmd-text :
      (params text : Text)
      → (next_word (next_word params).1).0 ≡ codes "t"
      → (next_word (next_word (next_word params).1).1).0 ≡ text
      → do_cmd open_file par params ≡ send_text open_file par text
  unfolding do_cmd
  do_cmd-text params text t e = rw (t, e, do_cmd) refl

  -- The command for a text sends the first word of the text and drops the rest.
  pub text_cut :
      (name w rest : Text)
      → IsWord name
      → IsWord w
      → do_cmd open_file par (name ++ b' ' ∷ b't' ∷ b' ' ∷ (w ++ b' ' ∷ rest)) ≡ ([], w ∷ [])
  unfolding send_text
  text_cut name w rest hn hw =
      let args = b't' ∷ b' ' ∷ (w ++ b' ' ∷ rest) in
      let first = next_word-append name args hn in
      let second = next_word-append (codes "t") (w ++ b' ' ∷ rest) (refl, refl) in
      let third = next_word-append w rest hw in
      let behind = ap (λ x. next_word x.1) first ∙ next_word-space args ∙ second in
      let text = ap (λ x. next_word x.1) behind ∙ next_word-space (w ++ b' ' ∷ rest) ∙ third in
      do_cmd-text (name ++ b' ' ∷ args) w (ap (λ x. x.0) behind) (ap (λ x. x.0) text)
      ∙ ground (arith, hw)

-- An activation of MsgCmd and then a deactivation leave the command service as it was, but that no
-- command is registered as `c`, also where another component had registered one before; and no
-- message handler is registered.
activate-deactivate :
    (n : ℕ) (h : Handler) (cs : CommandService) (s : Service) (name : Text)
    → IsOrdered cs.commands
    → let on = activate n h cs s in
      let off = deactivate on.0 on.1 in
      (find_command (codes "c") on.0 ≢ none)
      × (find_command name off.0
          ≡ (if text_eq name (codes "c") then none else find_command name cs))
      × (off.1.message_handler_func ≡ none)
unfolding activate deactivate add_command remove_command find_command set_message_handler
activate-deactivate n h cs s name ordered =
    let cmds = insert (codes "c") (other n) cs.commands in
    ground (
      arith,
      find-insert (codes "c") (codes "c") (other n) cs.commands ordered,
      find-insert name (codes "c") (other n) cs.commands ordered,
      find-erase name (codes "c") cmds (insert-IsOrdered (codes "c") (other n) cs.commands ordered),
      same_iff {K = Text} name (codes "c"),
      same_iff {K = Text} (codes "c") (codes "c"),
      text_eq_iff name (codes "c"),
    )

-- ===== src/Websocket/LogStream/Laws.antt =====
-- The trace has the lines of the log (WebsocketCppService/LogStream.cpp).
use shapeware.Base.{
  ℕ, ◌≡◌, refl, sym, ap, ◌∙◌, Bool, true, false, ◌&&◌, ◌==◌, List, [], ◌∷◌, ◌++◌, map, append_assoc,
  append-nil, arith, Bool-cases, inl, inr, ltb,
}
use shapeware.Base.Int.{pos}
use shapeware.Text.{Text, has_byte}
use shapeware.Websocket.LogStream.{LogStream, new, line_message, overflow, write_all}

abbrev pub all_bytes : Text → Bool
all_bytes [] = true
all_bytes (c ∷ s) = ltb c 256 && all_bytes s

abbrev pub join : List Text → Text
join [] = []
join (l ∷ ls) = l ++ join ls

-- A line with its newline, which is the only one.
abbrev pub IsLine : Text → Type 0
IsLine l = (t : Text) × ((l ≡ t ++ 10 ∷ []) × (has_byte 10 t ≡ false))

abbrev pub AreLines : List Text → Type 0
AreLines [] = Unit
AreLines (l ∷ ls) = IsLine l × AreLines ls

-- What the stream keeps of the bytes written: the trace has a message for each whole line, and the
-- buffer has the rest.
pub record IsLogged (bytes : Text) (s : LogStream) : Type 0 where
  pub lines : List Text
  pub traced : s.messages ≡ map line_message lines
  pub joined : join lines ++ s.buffer ≡ bytes
  pub are_lines : AreLines lines
  pub rest : has_byte 10 s.buffer ≡ false

join-snoc : (ls : List Text) (l : Text) → join (ls ++ l ∷ []) ≡ join ls ++ l
join-snoc [] l = append-nil l
join-snoc (m ∷ ls) l = ap (λ x. m ++ x) (join-snoc ls l) ∙ sym (append_assoc m (join ls) l)

map-snoc :
    (ls : List Text) (l : Text)
    → map line_message (ls ++ l ∷ []) ≡ map line_message ls ++ line_message l ∷ []
map-snoc [] l = refl
map-snoc (m ∷ ls) l = ap (λ x. line_message m ∷ x) (map-snoc ls l)

AreLines-snoc : (ls : List Text) (l : Text) → AreLines ls → IsLine l → AreLines (ls ++ l ∷ [])
AreLines-snoc [] l h k = (k, tt)
AreLines-snoc (m ∷ ls) l h k = (h.0, AreLines-snoc ls l h.1 k)

has_byte-snoc :
    (t : Text) (c : ℕ)
    → has_byte 10 t ≡ false
    → (c == 10) ≡ false
    → has_byte 10 (t ++ c ∷ []) ≡ false
has_byte-snoc [] c h k = ground arith
has_byte-snoc (d ∷ t) c h k = ground (arith, has_byte-snoc t c)

overflow-line :
    (c : ℕ) (s : LogStream)
    → (c == 10) ≡ true
    → (overflow true (pos c) s).0
      ≡ record { buffer = []; messages = s.messages ++ line_message (s.buffer ++ 10 ∷ []) ∷ [] }
unfolding overflow
overflow-line c s e = ground arith

overflow-char :
    (c : ℕ) (s : LogStream)
    → ltb c 256 ≡ true
    → (c == 10) ≡ false
    → (overflow true (pos c) s).0 ≡ record s { buffer = s.buffer ++ c ∷ [] }
unfolding overflow
overflow-char c s small e = ground arith

overflow-IsLogged :
    (bytes : Text) (c : ℕ) (s : LogStream)
    → ltb c 256 ≡ true
    → IsLogged bytes s
    → IsLogged (bytes ++ c ∷ []) (overflow true (pos c) s).0
overflow-IsLogged bytes c s small v = elim (Bool-cases (c == 10)) [
  | inl e ↦
      let line = s.buffer ++ 10 ∷ [] in
      let same : c ≡ 10 = ground arith in
      rw (overflow-line c s e, same)
        (record {
          lines = v.lines ++ line ∷ [];
          traced = ap (λ x. x ++ line_message line ∷ []) v.traced ∙ sym (map-snoc v.lines line);
          joined =
              append-nil (join (v.lines ++ line ∷ []))
              ∙ join-snoc v.lines line
              ∙ sym (append_assoc (join v.lines) s.buffer (10 ∷ []))
              ∙ ap (λ x. x ++ 10 ∷ []) v.joined;
          are_lines = AreLines-snoc v.lines line v.are_lines (s.buffer, (refl, v.rest));
          rest = refl;
        })
  | inr e ↦ rw (overflow-char c s small e) (record {
    lines = v.lines;
    traced = v.traced;
    joined = sym (append_assoc (join v.lines) s.buffer (c ∷ [])) ∙ ap (λ x. x ++ c ∷ []) v.joined;
    are_lines = v.are_lines;
    rest = has_byte-snoc s.buffer c v.rest e;
  })
]

write_all-IsLogged :
    (bytes more : Text) (s : LogStream)
    → all_bytes more ≡ true
    → IsLogged bytes s
    → IsLogged (bytes ++ more) (write_all true more s)
unfolding write_all
write_all-IsLogged bytes [] s h v = rw (append-nil bytes) v
write_all-IsLogged bytes (c ∷ more) s h v =
    let logged = overflow-IsLogged bytes c s (ground arith) v in
    rw (← append_assoc bytes (c ∷ []) more)
      (write_all-IsLogged (bytes ++ c ∷ []) more (overflow true (pos c) s).0 (ground arith) logged)

-- While the tracer takes the level, the bytes written to a new stream are the traced lines, one
-- after the other, and then the buffer: each message has one line with its newline, the lines have
-- no other newline, and the buffer has none.
pub write_all-new :
    (bytes : Text) → all_bytes bytes ≡ true → IsLogged bytes (write_all true bytes new)
write_all-new bytes h =
    write_all-IsLogged [] bytes new h
      (record { lines = []; traced = refl; joined = refl; are_lines = tt; rest = refl })

-- ===== src/Websocket/LogStream.antt =====
-- The stream that the log of websocketpp is written to (WebsocketCppService/LogStream.cpp): it
-- collects bytes and traces each line. A message of the trace is kept here in the order of the calls.
pub mod Laws
use shapeware.Base.{ℕ, ◌-◌, ◌%◌, ◌==◌, Bool, true, false, List, [], ◌∷◌, ◌++◌, if◌then◌else◌}
use shapeware.Base.Int.{ℤ, pos, negsuc}
use shapeware.Text.{Text, codes}

pub record LogStream : Type 0 where
  pub buffer : Text
  pub messages : List Text

abbrev pub new : LogStream
new = record { buffer = []; messages = [] }

-- `(char)ch`
abbrev pub char_of : ℤ → ℕ
char_of (pos n) = n % 256
char_of (negsuc n) = 255 - n % 256

-- `ch == '\n'`
abbrev pub is_newline : ℤ → Bool
is_newline (pos n) = n == 10
is_newline (negsuc n) = false

-- The message of the trace: the line, its newline included, and `std::endl`.
unfoldable pub line_message : Text → Text
line_message line = codes "Websocketpp: " ++ (line ++ 10 ∷ [])

-- `overflow`, where `valid` is whether the tracer takes the level: the stream, and what it returns.
unfoldable pub overflow : Bool → ℤ → LogStream → LogStream × ℤ
overflow valid ch s =
    let line = s.buffer ++ char_of ch ∷ [] in
    if is_newline ch
    then (
      record {
        buffer = [];
        messages = if valid then s.messages ++ line_message line ∷ [] else s.messages;
      },
      ch,
    )
    else (record s { buffer = line }, ch)

-- The bytes that are written to the stream, one call of `overflow` each.
unfoldable pub write_all : Bool → Text → LogStream → LogStream
unfolding overflow
write_all valid [] s = s
write_all valid (c ∷ bytes) s = write_all valid bytes (overflow valid (pos c) s).0

-- ===== src/CppRest.antt =====
-- The REST client over cpprestsdk (CppRestService/CppRestService.cpp): `getFile` as the chain of its
-- tasks. A continuation runs only if the task before it did not throw; the answers of the library are
-- arguments.
use shapeware.Base.{
  ℕ, ◌≡◌, Bool, true, false, ◌==◌, List, [], ◌∷◌, ◌++◌, Option, none, some, arith, if◌then◌else◌,
}
use shapeware.Text.{Text, codes}

pub data Event : Type 0 where
  opens_file : Text → Event
  -- The request, and whether the certificate of the server is validated.
  requests : Text → Bool → Event
  reads_body : Event
  closes_file : Event

pub record Answers : Type 0 where
  pub open_throws : Bool
  -- The status of the response, or none where the request throws.
  pub status : Option ℕ
  pub read_throws : Bool
  pub close_throws : Bool

-- `writtenTask`
unfoldable pub close_buffer : Answers → List Event × Bool
close_buffer a = (closes_file ∷ [], a.close_throws)

-- `responseTask` and what follows: the events, and whether one of the tasks throws.
unfoldable pub read_response : ℕ → Answers → List Event × Bool
unfolding close_buffer
read_response code a =
    let (es, thrown) = close_buffer a in
    if code == 200
    then (if a.read_throws then (reads_body ∷ [], true) else (reads_body ∷ es, thrown))
    else ([], true)

-- `openTask` and what follows.
unfoldable pub run_tasks : Text → Text → Answers → List Event × Bool
unfolding read_response
run_tasks url fname a = if a.open_throws then (opens_file fname ∷ [], true) else elim a.status [
  | none ↦ (opens_file fname ∷ requests url false ∷ [], true)
  | some code ↦
      let (es, thrown) = read_response code a in
      (opens_file fname ∷ requests url false ∷ es, thrown)
]

-- `getFile`: the events, and the text of what it throws.
unfoldable pub get_file : Text → Text → Answers → List Event × Option Text
unfolding run_tasks
get_file url fname a =
    let (es, thrown) = run_tasks url fname a in
    (es, if thrown then some (codes "Cannot download:" ++ url) else none)

-- `getFile` returns only after the file was opened, the answer had the status 200, its body was read
-- and the file was closed, each without an exception, and then it made these calls in this order.
get_file-returns :
    (url fname : Text) (a : Answers)
    → (get_file url fname a).1 ≡ none
    → ((get_file url fname a).0
        ≡ opens_file fname ∷ requests url false ∷ reads_body ∷ closes_file ∷ [])
      × (a.status ≡ some 200)
      × (a.open_throws ≡ false)
      × (a.read_throws ≡ false)
      × (a.close_throws ≡ false)
unfolding get_file
get_file-returns url fname a h = ground arith

-- ===== src/Rest.antt =====
-- `getFile` of the REST client over libcurl (CurlRestApiService/CurlRestApiService.cpp). What
-- libcurl and the system answer is an argument.
pub mod Laws
mod Tests
use shapeware.Base.{
  ℕ, suc, ◌-◌, Bool, true, false, List, [], ◌∷◌, ◌++◌, Option, none, some, if◌then◌else◌,
}
use shapeware.Text.{Text, codes, text_order}
use shapeware.StdMap.{StdMap, assign}

-- The handles and files that are open, and what the files hold.
pub record World : Type 0 where
  pub curls : ℕ
  pub open_files : ℕ
  pub files : StdMap Text Text

pub data Failure : Type 0 where
  failed_init failed_url could_not_open : Failure
  failed_follow failed_write_function failed_write_data failed_verify failed_perform : Failure

-- Whether each call succeeds, and the pieces that arrive during `curl_easy_perform`.
pub record Answers : Type 0 where
  pub init : Bool
  pub url : Bool
  pub fopen : Bool
  pub follow : Bool
  pub write_function : Bool
  pub write_data : Bool
  pub verify : Bool
  pub pieces : List Text
  pub perform : Bool

-- `writeCallback`, for each of the pieces.
abbrev pub written : List Text → Text
written [] = []
written (p ∷ ps) = p ++ written ps

-- The rest of the `try`, once the file is open.
unfoldable pub transfer : Answers → Text → World → Option Failure × World
transfer a fname w = elim a.follow [
  | false ↦ (some failed_follow, w)
  | true ↦ elim a.write_function [
    | false ↦ (some failed_write_function, w)
    | true ↦ elim a.write_data [
      | false ↦ (some failed_write_data, w)
      | true ↦ elim a.verify [
        | false ↦ (some failed_verify, w)
        | true ↦
            let w' = record w { files = assign fname (written a.pieces) w.files } in
            elim a.perform [
              | false ↦ (some failed_perform, w')
              | true ↦ (none, record w' { curls = w'.curls - 1 })
            ]
      ]
    ]
  ]
]

-- `fclose` on both ways out of the `try`.
close_file : Option Failure × World → Option Failure × World
close_file (thrown, w) = (thrown, record w { open_files = w.open_files - 1 })

unfoldable pub get_file : Answers → Text → World → Option Failure × World
unfolding transfer close_file
get_file a fname w =
    let w' = record w { curls = suc w.curls } in
    let opened = record w' { open_files = suc w'.open_files; files = assign fname [] w'.files } in
    elim a.init [
      | false ↦ (some failed_init, w)
      | true ↦ elim a.url [
        | false ↦ (some failed_url, w')
        | true ↦ elim a.fopen [
          | false ↦ (some could_not_open, w')
          | true ↦ close_file (transfer a fname opened)
        ]
      ]
    ]

-- `activate`, over whether the global initialisation of libcurl returns CURLE_OK: the text of what it
-- throws.
unfoldable pub activate : Bool → Option Text
activate initialised = if initialised then none else some (codes "Failed curl global init")

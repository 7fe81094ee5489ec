-- ===== src/Rest/Tests.antt =====
-- Runs of `getFile` (CurlRestApiService/CurlRestApiService.cpp).
use shapeware.Base.{◌≡◌, ◌≢◌, ◌↔◌, true, false, [], ◌∷◌, none, some}
use shapeware.Text.{codes, text_order}
use shapeware.StdMap.{find}
use shapeware.Rest.{Answers, World, get_file}
use shapeware.Rest.Laws.{all_good, get_file_lem}

abbrev broken_off : Answers
broken_off = record {
  init = true;
  url = true;
  fopen = true;
  follow = true;
  write_function = true;
  write_data = true;
  verify = true;
  pieces = codes "a" ∷ codes "b" ∷ [];
  perform = false;
}

abbrev at_first : World
at_first = record { curls = 0; open_files = 0; files = [] }

get_file_lem_example :
    let (thrown, w) = get_file broken_off (codes "f") at_first in
    ((thrown ≡ none) ↔ (all_good broken_off ≡ true))
    × ((w.open_files ≡ 0)
        × ((thrown ≡ none → (w.curls ≡ 0) × (find (codes "f") w.files ≡ some (codes "ab")))
            × (thrown ≢ none → true ≡ true → w.curls ≡ 1)))
get_file_lem_example = get_file_lem broken_off (codes "f") at_first

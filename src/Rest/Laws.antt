-- ===== src/Rest/Laws.antt =====
-- What `getFile` leaves (CurlRestApiService/CurlRestApiService.cpp).
use shapeware.Base.{suc, ◌≡◌, ◌≢◌, ◌↔◌, Bool, true, ◌&&◌, [], none, some, arith}
use shapeware.Text.{Text, text_order}
use shapeware.StdMap.{find, assign}
use shapeware.StdMap.Laws.{find-assign_self}
use shapeware.Rest.{World, Answers, written, transfer, get_file}

abbrev pub all_good : Answers → Bool
all_good a =
    a.init
    && (a.url
        && (a.fopen
            && (a.follow && (a.write_function && (a.write_data && (a.verify && a.perform))))))

-- `getFile` returns without an exception if and only if every call succeeds; each file that it opens
-- is closed again on every way; where it returns, the handle is cleaned up and the file holds all
-- pieces in their order; where it throws after `curl_easy_init` succeeded, the handle is never
-- cleaned up.
pub get_file_lem :
    (a : Answers) (fname : Text) (w : World)
    → let (thrown, w') = get_file a fname w in
      ((thrown ≡ none) ↔ (all_good a ≡ true))
      × ((w'.open_files ≡ w.open_files)
          × ((thrown ≡ none
                → (w'.curls ≡ w.curls) × (find fname w'.files ≡ some (written a.pieces)))
              × (thrown ≢ none → a.init ≡ true → w'.curls ≡ suc w.curls)))
unfolding get_file transfer
get_file_lem a fname w =
    ground (arith, find-assign_self fname (written a.pieces) (assign fname [] w.files))

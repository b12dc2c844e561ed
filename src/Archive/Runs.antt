-- ===== src/Archive/Runs.antt =====
-- Two wide strings of four characters, of four bytes each, that begin with the same character.
use srpg.Base.{[], ◌∷◌, ◌≡◌, refl, arith}
use srpg.Archive.Trivial.{trivial_archive}
use srpg.Archive.Strings.{save_wstring, save_wstring-same_start}

save_wstring-same_start_example :
    save_wstring trivial_archive 4 (65 ∷ 66 ∷ 67 ∷ 68 ∷ [])
    ≡ save_wstring trivial_archive 4 (65 ∷ 97 ∷ 98 ∷ 99 ∷ [])
save_wstring-same_start_example =
    save_wstring-same_start trivial_archive 4 (65 ∷ []) (66 ∷ 67 ∷ 68 ∷ []) (97 ∷ 98 ∷ 99 ∷ []) refl
      (omega arith)

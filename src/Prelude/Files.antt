-- ===== src/Prelude/Files.antt =====
-- The files that the logs rotate out, with their numbers, as a list of pairs.
use Prim.Native.Nat.{ℕ}
use mathlib.Core.List.{List, [], ◌∷◌}
use package.amind.Prelude.Tests.{ltb, if◌then◌else◌}

-- `std::sort` of files by their number
unfoldable pub insert_file : ℕ × List ℕ → List (ℕ × List ℕ) → List (ℕ × List ℕ)
insert_file (n, bytes) [] = (n, bytes) ∷ []
insert_file (n, bytes) ((m, other) ∷ files) =
    if ltb m n then (m, other) ∷ insert_file (n, bytes) files else (n, bytes) ∷ (m, other) ∷ files

unfoldable pub sort_files : List (ℕ × List ℕ) → List (ℕ × List ℕ)
sort_files [] = []
sort_files (f ∷ files) = insert_file f (sort_files files)

abbrev pub contents : List (ℕ × List ℕ) → List (List ℕ)
contents [] = []
contents ((n, bytes) ∷ files) = bytes ∷ contents files

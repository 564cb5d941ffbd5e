-- ===== src/Invert/Groups.antt =====
-- The runs of an index in a list of triples: Prelude/Runs at the index of a triple, for the order of
-- invert/invert.hpp.
use learning_cpp.Prelude.{ℕ, ℤ, ◌≤ℤ◌, ◌≡◌, Bool, false, List, [], ◌∷◌, All}
use learning_cpp.Prelude.Runs.{is_at, count_at, count_below, ByKey}
use learning_cpp.Invert.Node.{PidKidInfo, less}
use learning_cpp.Invert.Sort.{IsSorted, less-pid}

abbrev pub pid_of : PidKidInfo → ℤ
pid_of info = info.pid

abbrev pub has_pid : ℤ → PidKidInfo → Bool
has_pid k info = is_at pid_of k info

abbrev pub count_pid : ℤ → List PidKidInfo → ℕ
count_pid k l = count_at pid_of k l

abbrev pub count_below_pid : ℤ → List PidKidInfo → ℕ
count_below_pid k l = count_below pid_of k l

-- Ordered by index.
abbrev pub ByPid : List PidKidInfo → Type 0
ByPid l = ByKey pid_of l

All-pid :
    (x : PidKidInfo) (l : List PidKidInfo)
    → All (λ y. less y x ≡ false) l
    → All (λ y. x.pid ≤ℤ y.pid) l
All-pid x [] h = tt
All-pid x (y ∷ l) h = (less-pid x y h.0, All-pid x l h.1)

pub IsSorted-ByPid : (l : List PidKidInfo) → IsSorted l → ByPid l
IsSorted-ByPid [] h = tt
IsSorted-ByPid (x ∷ l) h = (All-pid x l h.0, IsSorted-ByPid l h.1)

-- ===== src/Tests/Core.antt =====
-- Runs of the theorems of are-core.
use are.Base.{ℕ, ◌≡◌, refl, ◌↔◌, true, List, [], ◌∷◌, Str, ascii, Any, str_eq}
use are.Core.Grant.{read, grants_allow_fs}
use are.Core.Grant.Roots.{path, IsPlain}
use are.Core.Grant.Scopes.{Permits, grants_allow_fs_iff}
use are.Tests.Data.{grants}

abbrev logs : List Str
logs = ascii "logs" ∷ []

abbrev logs_a : List Str
logs_a = ascii "logs" ∷ ascii "a" ∷ []

a-IsPlain : IsPlain (ascii "a")
a-IsPlain = record { present = λ e. cc; not_here = λ e. cc; not_up = λ e. cc; free = (refl, tt) }

logs-IsPlain : IsPlain (ascii "logs")
logs-IsPlain = record {
  present = λ e. cc;
  not_here = λ e. cc;
  not_up = λ e. cc;
  free = (refl, (refl, (refl, (refl, tt))));
}

abbrev sixteen : List ℕ
sixteen = 1 ∷ 2 ∷ 3 ∷ 4 ∷ 5 ∷ 6 ∷ 7 ∷ 8 ∷ 9 ∷ 10 ∷ 11 ∷ 12 ∷ 13 ∷ 14 ∷ 15 ∷ 255 ∷ []

grants_allow_fs_iff_example :
    (grants_allow_fs grants read (path logs) ≡ true) ↔ Any (Permits read logs) grants
grants_allow_fs_iff_example =
    grants_allow_fs_iff grants read logs
      (([], refl, tt), ((ascii "a" ∷ [], refl, (a-IsPlain, tt)), (tt, (tt, tt)))) (logs-IsPlain, tt)

-- ===== src/Dl/Pass/Rule.antt =====
-- What holds of the result of the second loop holds of the result of `pf_dl`.
use user_ric.Prelude.{ℕ, List, Option, none, some}
use user_ric.Prelude.Float.{Float}
use user_ric.Slice.Assoc.{AssocEntry}
use user_ric.Slice.Runtime.{RuntimeEntry}
use user_ric.UeDl.Reload.{Environment}
use user_ric.Dl.{DlUe, Gnb, DlConfig, Shared}
use user_ric.Dl.Serve.Rule.{WhenSome}
use user_ric.Dl.Pass.{DlCell, end_pass}

pub end_pass-cases :
    (fl : Float) (g : Gnb) (cfg : DlConfig) (env : Environment) (assoc : List AssocEntry)
    (runtime : List RuntimeEntry) (frame slot : ℕ) (R : Shared g → Type 0) (cell : DlCell fl g)
    (o : Option (List (DlUe fl) × Shared g))
    → WhenSome (λ r. R r.1) o
    → WhenSome
        (λ r. R (record r.1 { vrb_map = r.0.vrb_map }))
        (end_pass fl g cfg env assoc runtime frame slot cell o)
end_pass-cases fl g cfg env assoc runtime frame slot R cell none h = tt
end_pass-cases fl g cfg env assoc runtime frame slot R cell (some r) h = h

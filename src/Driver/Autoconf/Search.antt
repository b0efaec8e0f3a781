-- ===== src/Driver/Autoconf/Search.antt =====
-- config_search() of Sinetek-rtsx/compat/openbsd/config.cpp: which entry it finds.
use sinetek_rtsx.Base.{
  ◌≡◌, ◌≢◌, ◌⊎◌, inl, inr, refl, ap, ◌∙◌, true, false, List, [], ◌∷◌, ◌++◌, arith, null,
}
use sinetek_rtsx.Driver.Autoconf.{CfData, config_search}

-- An entry that is passed over: it has no cf_attach, or does not match.
abbrev pub Passed : CfData → Type 0
Passed cf = (cf.cf_attach ≡ null) ⊎ (cf.matches ≡ false)

abbrev pub AllPassed : List CfData → Type 0
AllPassed [] = Unit
AllPassed (cf ∷ cfs) = Passed cf × AllPassed cfs

-- `cf` has a cf_attach and matches, and every entry before it is passed over.
pub record FirstMatch (cfs : List CfData) (cf : CfData) : Type 0 where
  pub before : List CfData
  pub after : List CfData
  pub splits : cfs ≡ before ++ cf ∷ after
  pub passed : AllPassed before
  pub has_attach : cf.cf_attach ≢ null
  pub matches : cf.matches ≡ true

FirstMatch-later :
    {cfs : List CfData} {cf : CfData} (x : CfData)
    → Passed x
    → FirstMatch cfs cf
    → FirstMatch (x ∷ cfs) cf
FirstMatch-later x p m = record {
  before = x ∷ m.before;
  after = m.after;
  splits = ap (λ l. x ∷ l) m.splits;
  passed = (p, m.passed);
  has_attach = m.has_attach;
  matches = m.matches;
}

search_step :
    (x : CfData) (cfs : List CfData)
    → (Passed x × (config_search (x ∷ cfs) ≡ config_search cfs))
      ⊎ ((x.cf_attach ≢ null) × (x.matches ≡ true) × (config_search (x ∷ cfs) ≡ x.this))
unfolding config_search
search_step x cfs = ground arith

pub config_search-FirstMatch :
    (cfs : List CfData)
    → config_search cfs ≢ null
    → (cf : CfData) × FirstMatch cfs cf × (config_search cfs ≡ cf.this)
unfolding config_search
config_search-FirstMatch [] h = absurd (h refl)
config_search-FirstMatch (x ∷ cfs) h = elim (search_step x cfs) [
  | inl (passed, same) ↦
      let (cf, first, at_cf) = config_search-FirstMatch cfs (λ e. h (same ∙ e)) in
      (cf, FirstMatch-later x passed first, same ∙ at_cf)
  | inr (has_attach, matches, same) ↦ (
    x,
    record {
      before = [];
      after = cfs;
      splits = refl;
      passed = tt;
      has_attach = has_attach;
      matches = matches;
    },
    same,
  )
]

-- ===== src/Registry/Suffix.antt =====
-- Level 4 of Resolve: the longest domain that the host is a sub-domain of.
use kauth_go.Prelude.{
  ℕ, ◌≡◌, ◌≤◌, ◌⊎◌, inl, inr, refl, sym, String, Bool, true, false, ◌&&◌, Option, none, some, List,
  [], ◌∷◌, All, arith,
}
use kauth_go.Text.{byte_length}
use kauth_go.Env.{Env}
use kauth_go.Db.{Service}
use kauth_go.Registry.{domain_of, is_sub_domain, is_longer, longest, by_suffix}

module _ (env : Env) (host : String) where
  abbrev size : Service → ℕ
  size s = byte_length (domain_of env s)

  -- Every service whose domain the host is below has a domain no longer than that of `s`.
  abbrev pub IsBound : Service → Service → Type 0
  IsBound best s = is_sub_domain env host s ≡ true → size s ≤ size best

  -- `o` is the best of `done` and of what came before.
  record Best (before : Option Service) (rest : List Service) (o : Service) : Type 0 where
    below : (is_sub_domain env host o ≡ true) ⊎ (before ≡ some o)
    old : (s : Service) → before ≡ some s → size s ≤ size o
    bound : All (IsBound o) rest

  longest-Best :
      (before : Option Service) (rest : List Service) (o : Service)
      → longest env host before rest ≡ some o
      → Best before rest o
  unfolding longest
  longest-Best before [] o e = record {
    below = inr e;
    old = λ s f. let same : s ≡ o = cc in rw same (omega arith);
    bound = tt;
  }
  longest-Best before (s ∷ rest) o e =
      go (is_sub_domain env host s && is_longer env s before) refl
        (λ h. longest-Best (some s) rest o (rw h at e))
        (λ h. longest-Best before rest o (rw h at e))
    where
      taken :
          (is_sub_domain env host s && is_longer env s before) ≡ true
          → Best (some s) rest o
          → Best before (s ∷ rest) o
      taken h best = record {
        below = elim best.below [
          | inl sub ↦ inl sub
          | inr same ↦ let eq : s ≡ o = cc in inl (rw (← eq) (ground arith))
        ];
        old = λ t f. let grown = best.old s refl in ground (arith, grown);
        bound = ((λ _. best.old s refl), best.bound);
      }

      kept :
          (b : Option Service)
          → b ≡ before
          → (is_sub_domain env host s && is_longer env s b) ≡ false
          → Best before rest o
          → Best before (s ∷ rest) o
      kept none f h best = record {
        below = best.below;
        old = best.old;
        bound = ((λ sub. ground arith), best.bound);
      }
      kept (some t) f h best = record {
        below = best.below;
        old = best.old;
        bound = ((λ sub. let grown = best.old t (sym f) in ground (arith, grown)), best.bound);
      }

      go :
          (b : Bool)
          → (is_sub_domain env host s && is_longer env s before) ≡ b
          → ((is_sub_domain env host s && is_longer env s before) ≡ true → Best (some s) rest o)
          → ((is_sub_domain env host s && is_longer env s before) ≡ false → Best before rest o)
          → Best before (s ∷ rest) o
      go true h t f = taken h (t h)
      go false h t f = kept before refl h (f h)

-- The service that level 4 gives for a host has a domain that the host is below, and no service of
-- the registry with such a domain has a longer one.
pub by_suffix_longest :
    (env : Env) (host : String) (cache : List Service) (o : Service)
    → by_suffix env (some host) cache ≡ some o
    → (is_sub_domain env host o ≡ true) × All (IsBound env host o) cache
unfolding by_suffix
by_suffix_longest env host cache o e =
    let best = longest-Best env host none cache o e in
    (elim best.below [ inl sub ↦ sub | inr clash ↦ cc ], best.bound)

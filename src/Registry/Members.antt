-- ===== src/Registry/Members.antt =====
-- What the registry finds is one of its services.
use kauth_go.Prelude.{
  ◌≡◌, refl, String, Bool, true, false, ◌&&◌, Option, none, some, List, [], ◌∷◌, ◌==◌, arith,
  if◌then◌else◌, eq_refl,
}
use kauth_go.Text.{contains}
use kauth_go.Env.{Env}
use kauth_go.Db.{Service}
use kauth_go.Db.Table.{select_first, exists_where}
use kauth_go.Registry.{
  by_domain, has_auth_host, by_host, by_id, is_sub_domain, is_longer, longest, by_suffix, or_else,
  resolve, redirect_host, first, default_service, resolve_or_default, callback_urls,
  primary_callback, is_allowed_callback,
}

-- Whatever test the service meets, some service of the cache meets.
pub record InCache (cache : List Service) (s : Service) : Type 0 where
  pub meets : (p : Service → Bool) → p s ≡ true → exists_where p cache ≡ true

-- The option holds a service of the cache, if it holds one.
pub record OfCache (cache : List Service) (o : Option Service) : Type 0 where
  pub found : (s : Service) → o ≡ some s → InCache cache s

tail-InCache :
    (x : Service) (cache : List Service) (s : Service) → InCache cache s → InCache (x ∷ cache) s
unfolding exists_where
tail-InCache x cache s h = record { meets = λ p e. let met = h.meets p e in ground (arith, met) }

head-InCache : (s : Service) (cache : List Service) → InCache (s ∷ cache) s
unfolding exists_where
head-InCache s cache = record { meets = λ p e. ground (arith, e) }

pub select_first-OfCache :
    (q : Service → Bool) (cache : List Service) → OfCache cache (select_first q cache)
unfolding select_first
select_first-OfCache q [] = record { found = λ s e. cc }
select_first-OfCache q (x ∷ cache) = go (q x) (select_first-OfCache q cache)
  where
    go :
        (b : Bool)
        → OfCache cache (select_first q cache)
        → OfCache (x ∷ cache) (if b then some x else select_first q cache)
    go true ih = record {
      found = λ s e. let same : x ≡ s = cc in rw (← same) (head-InCache x cache);
    }
    go false ih = record { found = λ s e. tail-InCache x cache s (ih.found s e) }

module _ (env : Env) (host : String) where
  longest-OfCache :
      (whole rest : List Service) (best : Option Service)
      → OfCache whole best
      → ((s : Service) → InCache rest s → InCache whole s)
      → OfCache whole (longest env host best rest)
  unfolding longest
  longest-OfCache whole [] best h k = h
  longest-OfCache whole (x ∷ rest) best h k =
      longest-OfCache whole rest _ (go (is_sub_domain env host x && is_longer env x best))
        (λ s i. k s (tail-InCache x rest s i))
    where
      go : (b : Bool) → OfCache whole (if b then some x else best)
      go true = record {
        found = λ s e. let same : x ≡ s = cc in rw (← same) (k x (head-InCache x rest));
      }
      go false = h

or_else-OfCache :
    (cache : List Service) (a b : Option Service)
    → OfCache cache a
    → OfCache cache b
    → OfCache cache (or_else a b)
or_else-OfCache cache none b h k = k
or_else-OfCache cache (some s) b h k = h

none-OfCache : (cache : List Service) → OfCache cache none
none-OfCache cache = record { found = λ s e. cc }

unless-OfCache :
    (cache : List Service) (b : Bool) (o : Option Service)
    → OfCache cache o
    → OfCache cache (if b then none else o)
unless-OfCache cache true o h = none-OfCache cache
unless-OfCache cache false o h = h

module _ (env : Env) (cache : List Service) where
  domain-OfCache : (o : Option String) → OfCache cache (by_domain env o cache)
  unfolding by_domain
  domain-OfCache none = none-OfCache cache
  domain-OfCache (some h) = select_first-OfCache _ cache

  suffix-OfCache : (o : Option String) → OfCache cache (by_suffix env o cache)
  unfolding by_suffix
  suffix-OfCache none = none-OfCache cache
  suffix-OfCache (some h) = longest-OfCache env h cache cache none (none-OfCache cache) (λ s i. i)

  pub resolve-OfCache : (host id uri : String) → OfCache cache (resolve env cache host id uri)
  unfolding resolve by_host by_id
  resolve-OfCache host id uri = or_else-OfCache cache _ _ (domain-OfCache (redirect_host env uri)) (
      or_else-OfCache cache _ _
        (unless-OfCache cache (host == "") _ (select_first-OfCache (has_auth_host env host) cache))
        (or_else-OfCache cache _ _
          (unless-OfCache cache (id == "") _ (select_first-OfCache (λ s. s.id == id) cache))
          (suffix-OfCache (redirect_host env uri))))

  first-OfCache : (c : List Service) → OfCache c (first c)
  first-OfCache [] = none-OfCache []
  first-OfCache (s ∷ c) = record {
    found = λ t e. let same : s ≡ t = cc in rw (← same) (head-InCache s c);
  }

  pub resolve_or_default-OfCache :
      (host id uri : String) → OfCache cache (resolve_or_default env cache host id uri)
  unfolding resolve_or_default default_service
  resolve_or_default-OfCache host id uri =
      or_else-OfCache cache _ _ (resolve-OfCache host id uri)
        (or_else-OfCache cache _ _ (select_first-OfCache _ cache) (first-OfCache cache))

-- The first callback is allowed.
pub primary_callback-is_allowed_callback :
    (s : Service)
    → (primary_callback s == "") ≡ false
    → is_allowed_callback (some s) (primary_callback s) ≡ true
unfolding primary_callback is_allowed_callback contains
primary_callback-is_allowed_callback s h = go (callback_urls s.callback_url) h
  where
    head : List String → String
    head us = elim us [ [] ↦ "" | u ∷ _ ↦ u ]

    go :
        (us : List String)
        → (head us == "") ≡ false
        → (if head us == "" then false else contains us (head us)) ≡ true
    go [] e = cc
    go (u ∷ us) e = rw (e, eq_refl u) refl

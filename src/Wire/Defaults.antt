-- ===== src/Wire/Defaults.antt =====
-- wire/config.go: a configuration with its defaults filled in.
use duckcall.Base.{
  ℕ, zero, suc, ◌*◌, ◌^◌, ◌<◌, ◌≡◌, refl, subst, sym, Bool, true, false, List, Option, none, some,
  Result, ok, err, is_empty, arith, if◌then◌else◌,
}
use duckcall.Base.Int.{ℤ, pos, negsuc, is_positive}
use duckcall.Wire.Config.{
  ConfigError, empty_endpoint, Config, with_defaults, fill, check_scheme, or_default, or_nonzero,
  or_client,
}

positive_default : (d : ℕ) (i : ℤ) → 0 < d → is_positive (or_default d i) ≡ true
positive_default (suc d) (pos zero) h = refl
positive_default zero (pos zero) h = absurd (omega arith)
positive_default d (pos (suc n)) h = refl
positive_default (suc d) (negsuc n) h = refl
positive_default zero (negsuc n) h = absurd (omega arith)

default_stays : (d : ℕ) (i : ℤ) → is_positive i ≡ true → or_default d i ≡ i
default_stays d i h = ground arith

nonzero_twice : (d : ℕ) (i : ℤ) → or_nonzero (suc d) (or_nonzero (suc d) i) ≡ or_nonzero (suc d) i
nonzero_twice d (pos zero) = refl
nonzero_twice d (pos (suc n)) = refl
nonzero_twice d (negsuc n) = refl

module _ {Http : Type 0} where
  client_twice : (d : Http) (o : Option Http) → or_client d (or_client d o) ≡ or_client d o
  client_twice d none = refl
  client_twice d (some h) = refl

  module _ (default_client : Http) (parse : List ℕ → Option (List ℕ)) where
    fill_twice :
        (c : Config Http)
        → fill default_client parse (fill default_client parse c) ≡ fill default_client parse c
    unfolding fill
    fill_twice c = rw (
      default_stays 4 _ (positive_default 4 c.fetch_workers (omega arith)),
      default_stays (10 * 10 ^ 9) _
          (positive_default (10 * 10 ^ 9) c.connect_timeout (omega arith)),
      default_stays (100 * 10 ^ 6) _
          (positive_default (100 * 10 ^ 6) c.retry_base_delay (omega arith)),
      nonzero_twice 2 c.max_retries,
      client_twice default_client c.http_client,
    )

    abbrev settled : Bool → Option (List ℕ) → Config Http → Result ConfigError (Config Http)
    settled b o c = if b then err empty_endpoint else check_scheme default_client parse o c

    settled_is_filled :
        (b : Bool) (o : Option (List ℕ)) (c c' : Config Http)
        → settled b o c ≡ ok c'
        → c' ≡ fill default_client parse c
    unfolding check_scheme
    settled_is_filled true o c c' h = cc
    settled_is_filled false none c c' h = cc
    settled_is_filled false (some scheme) c c' h = ground arith

    settled_again :
        (b : Bool) (o : Option (List ℕ)) (c c' : Config Http)
        → settled b o c ≡ ok c'
        → settled b o (fill default_client parse c) ≡ ok (fill default_client parse c)
    unfolding check_scheme
    settled_again true o c c' h = cc
    settled_again false none c c' h = cc
    settled_again false (some scheme) c c' h = ground (arith, fill_twice c)

    -- A configuration that is accepted has at least one fetch worker and positive delays, and is
    -- accepted again without a change.
    pub with_defaults_settles :
        (c c' : Config Http)
        → with_defaults default_client parse c ≡ ok c'
        → (is_positive c'.fetch_workers ≡ true)
          × (is_positive c'.connect_timeout ≡ true)
          × (is_positive c'.retry_base_delay ≡ true)
          × (with_defaults default_client parse c' ≡ ok c')
    unfolding with_defaults fill
    with_defaults_settles c c' h =
        let e = settled_is_filled (is_empty c.endpoint) (parse c.endpoint) c c' h in
        subst
          (λ (x : Config Http).
            (is_positive x.fetch_workers ≡ true)
            × (is_positive x.connect_timeout ≡ true)
            × (is_positive x.retry_base_delay ≡ true)
            × (with_defaults default_client parse x ≡ ok x))
          (sym e)
          (
            positive_default 4 c.fetch_workers (omega arith),
            positive_default (10 * 10 ^ 9) c.connect_timeout (omega arith),
            positive_default (100 * 10 ^ 6) c.retry_base_delay (omega arith),
            settled_again (is_empty c.endpoint) (parse c.endpoint) c c' h,
          )

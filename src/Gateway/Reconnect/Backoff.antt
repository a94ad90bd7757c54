-- ===== src/Gateway/Reconnect/Backoff.antt =====
-- How the wait grows over a series of rate-limited failures.
use openclaw_hass_node.Prelude.{
  ℕ, zero, suc, ◌*◌, ◌^◌, ◌≤◌, min, ◌≡◌, ap, ◌∙◌, Bool, true, false, not, List, [], ◌∷◌, ◌++◌, all,
  length, arith, is_some, ◌&&◌,
}
use openclaw_hass_node.Gateway.Reconnect.{
  Failure, Wait, seconds, is_rate_limited, grown, next_reconnect_delay,
}

one-le-pow : (n : ℕ) → 1 ≤ 2 ^ n
one-le-pow zero = omega arith
one-le-pow (suc n) = omega (arith, one-le-pow n)

-- The wait after `n` doublings.
abbrev pub doubled : ℕ → ℕ
doubled n = min (30 * 2 ^ n) 300

grown-doubled : (n : ℕ) → grown (doubled n) ≡ doubled (suc n)
grown-doubled n = ground (arith, one-le-pow n)

module _ {Ms : Type 0} where
  -- A failure that says the node is rate limited and recommends no delay.
  abbrev pub is_limited : Failure Ms → Bool
  is_limited exc = not (is_some exc.retry_after_ms) && is_rate_limited exc.repr

  -- `_rate_limited_delay_s` after the failures, the latest first.
  unfoldable pub delay_after : List (Failure Ms) → ℕ
  unfolding next_reconnect_delay
  delay_after [] = 0
  delay_after (exc ∷ earlier) = (next_reconnect_delay exc (delay_after earlier)).1

  delay_after-max : (failures : List (Failure Ms)) → delay_after failures ≤ 300
  unfolding delay_after next_reconnect_delay
  delay_after-max [] = omega arith
  delay_after-max (exc ∷ earlier) = ground (arith, delay_after-max earlier)

  next-limited :
      (exc : Failure Ms) (d : ℕ)
      → is_limited exc ≡ true
      → next_reconnect_delay exc d ≡ (seconds (grown d), grown d)
  unfolding next_reconnect_delay
  next-limited exc d h = ground arith

  next-other :
      (exc : Failure Ms) (d : ℕ) → is_limited exc ≡ false → (next_reconnect_delay exc d).1 ≡ 0
  unfolding next_reconnect_delay
  next-other exc d h = ground arith

  -- After any failures, then one that is not rate limited or recommends a delay, and then `n + 1`
  -- rate-limited ones in a row, the wait and the delay that is remembered are 30 * 2^n
  -- seconds, and 300 where that is more.
  pub backoff-doubles :
      (limited : List (Failure Ms)) (exc : Failure Ms)
      → is_limited exc ≡ true
      → all is_limited limited ≡ true
      → (other : Failure Ms) (before : List (Failure Ms)) → is_limited other ≡ false
      → next_reconnect_delay exc (delay_after (limited ++ other ∷ before))
        ≡ (seconds (doubled (length limited)), doubled (length limited))
  unfolding delay_after next_reconnect_delay
  backoff-doubles [] exc h k other before r =
      next-limited exc _ h
      ∙ ap (λ (d : ℕ). (seconds (grown d), grown d)) (next-other other (delay_after before) r)
  backoff-doubles (e ∷ es) exc h k other before r =
      next-limited exc _ h
      ∙ ap (λ (d : ℕ). (seconds (grown d), grown d))
          (ap (λ (w : Wait Ms × ℕ). w.1)
            (backoff-doubles es e (ground arith) (ground arith) other before r))
      ∙ ap (λ (d : ℕ). (seconds d, d)) (grown-doubled (length es))

-- ===== src/RateLimit/Tests.antt =====
-- TokenBucket at two tokens a second.
use bigpipe_cpp.Base.{
  ◌≡◌, refl, Bool, false, List, [], ◌∷◌, none, some, done, ℤ, pos, ◌-ℤ◌, millionths,
  millionths-IsOrdered,
}
use bigpipe_cpp.RateLimit.{
  TokenBucket, new_bucket, try_fill_bucket, get_token, get_tokens, microseconds,
}
use bigpipe_cpp.RateLimit.Fill.{get_tokens-never_sleeps, get_token-sleeps}

abbrev two_a_second : TokenBucket ℤ
two_a_second = record {
  last_fill_time = pos 0;
  token_per_micro_second = pos 2;
  token_count = pos 2000000;
  capacity = pos 2000000;
}

made_so : new_bucket (pos 2000000) (pos 0) ≡ two_a_second
unfolding new_bucket
made_so = refl

abbrev burst : List (ℤ × ℤ)
burst = (pos 1, pos 0) ∷ (pos 2, pos 1) ∷ (pos 2, pos 2) ∷ (pos 2, pos 3) ∷ []

get_tokens-never_sleeps_example :
    (t' : TokenBucket ℤ) × (get_tokens burst two_a_second
      ≡ done (t', none ∷ none ∷ none ∷ none ∷ []))
unfolding try_fill_bucket microseconds ◌-ℤ◌
get_tokens-never_sleeps_example =
    get_tokens-never_sleeps ⦃o = millionths-IsOrdered⦄ burst two_a_second refl
      (refl, (refl, (refl, (refl, tt)))) (refl, (refl, (refl, (refl, tt))))

too_many :
    get_token (pos 5) (pos 0) two_a_second
    ≡ done (record two_a_second { token_count = pos 0 }, some (pos 999995))
unfolding get_token try_fill_bucket microseconds ◌-ℤ◌
too_many = refl

bucket_emptied :
    (◌≡◌ {A = Bool} false false) × (◌≡◌ {A = ℤ} (pos 0) (pos 0)) × (◌≡◌ {A = ℤ} (pos 0) (pos 0))
unfolding microseconds ◌-ℤ◌
bucket_emptied =
    get_token-sleeps ⦃o = millionths-IsOrdered⦄ (pos 5) (pos 0) (pos 999995) two_a_second
      (record two_a_second { token_count = pos 0 }) refl refl too_many

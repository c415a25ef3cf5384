-- ===== src/User/Programs/Counting.antt =====
-- question/user/bin/wc.c: what is printed of the count.
use assembly_os.Prelude.{
  ℕ, zero, suc, ◌<◌, ◌≡◌, refl, ◌∙◌, ap, ◌⊎◌, inl, inr, some, List, [], arith, replicate, set,
}
use assembly_os.User.Text.{c_string, atoi, ss}
use assembly_os.User.Text.Laws.{itoa_pos, ss-itoa, ss_zero}
use assembly_os.User.Programs.{put, exit, ask, print_count, exit_success}

print_count_lem :
    (b shown : List ℕ)
    → print_count (some (b, shown)) ≡ ask (put (c_string b)) (λ p. exit exit_success)
unfolding print_count
print_count_lem b shown = refl

empty_buffer : c_string (set (replicate 10 0) 0 0) ≡ []
unfolding c_string
empty_buffer = refl

-- The program prints its buffer, not the string that `ss` returns. A count from 1 to 999999999 is
-- printed as a text that `atoi` reads as the count; for the count 0 the text that is printed is
-- empty.
pub print_count-ss :
    (count : ℕ)
    → count < 1000000000
    → (text : List ℕ) × (print_count (ss (replicate 10 0) count)
        ≡ ask (put text) (λ p. exit exit_success))
      × (((count ≡ 0) × (text ≡ [])) ⊎ ((0 < count) × (atoi text ≡ count)))
print_count-ss zero small = (
  [],
  ap print_count (ss_zero (replicate 10 0))
      ∙ print_count_lem (set (replicate 10 0) 0 0) _
      ∙ ap (λ t. ask (put t) (λ p. exit exit_success)) empty_buffer,
  inl (refl, refl),
)
print_count-ss (suc v) small =
    let (b', printed, back) =
      itoa_pos (suc v) (set (replicate 10 0) 0 0) (omega arith) small (omega arith) in
    (
      c_string b',
      ap print_count (ss-itoa (suc v) (replicate 10 0) b' (ground arith) printed)
          ∙ print_count_lem b' (c_string b'),
      inr (omega arith, back),
    )

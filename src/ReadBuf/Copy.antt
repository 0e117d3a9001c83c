-- ===== src/ReadBuf/Copy.antt =====
-- The copy loop of `lua_co_read_`: it takes a prefix of the chain's text and leaves the rest.
use alilua_coevent_module.Prelude.{
  ℕ, ◌+◌, ◌-◌, ◌≤◌, ◌<◌, ◌≡◌, sym, ap, ◌∙◌, List, [], ◌∷◌, ◌++◌, append_assoc, arith, Bytes, length,
  take, drop, concat, All, length-append, length-drop, take_all, take-append_left, drop-append_left,
  take-append_right, drop-append_right, dec_le,
}
use alilua_coevent_module.ReadBuf.{copy_out, full, buf_size}

module _ (k : ℕ) (b : Bytes) (bs : List Bytes) (copy_ed : ℕ) (out : Bytes) where
  copy_out_within :
      k ≤ length b
      → copy_out (copy_ed + k) (b ∷ bs) copy_ed out
        ≡ full (out ++ take k b) (copy_ed + k) (drop k b ∷ bs)
  unfolding copy_out
  copy_out_within h = ground arith

  copy_out_past :
      length b < k
      → copy_out (copy_ed + k) (b ∷ bs) copy_ed out
        ≡ copy_out (copy_ed + length b + (k - length b)) bs (copy_ed + length b) (out ++ b)
  unfolding copy_out
  copy_out_past h = ground (arith, take_all (length b) b)

-- The last `k` bytes that are wanted are copied from the front of the chain.
pub copy_out-full :
    (k : ℕ) (bs : List Bytes) (copy_ed : ℕ) (out : Bytes)
    → 0 < k
    → k ≤ length (concat bs)
    → All (λ b. length b ≤ buf_size) bs
    → (rest : List Bytes) × (copy_out (copy_ed + k) bs copy_ed out
        ≡ full (out ++ take k (concat bs)) (copy_ed + k) rest)
      × (concat rest ≡ drop k (concat bs))
      × All (λ b. length b ≤ buf_size) rest
copy_out-full k [] copy_ed out pos le fits = absurd (omega arith)
copy_out-full k (b ∷ bs) copy_ed out pos le fits = elim (dec_le k (length b)) [
  | yes within ↦ (
    drop k b ∷ bs,
    copy_out_within k b bs copy_ed out within
        ∙ ap (λ t. full (out ++ t) (copy_ed + k) (drop k b ∷ bs))
            (sym (take-append_left k b (concat bs) within)),
    sym (drop-append_left k b (concat bs) within),
    (omega (arith, length-drop k b), fits.1),
  )
  | no past ↦
      let k' = k - length b in
      let (rest, copied, left, small) =
        copy_out-full k' bs (copy_ed + length b) (out ++ b) (omega arith)
          (omega (arith, length-append b (concat bs))) fits.1 in
      let split : length b + k' ≡ k = omega arith in
      (
        rest,
        ground (
          arith,
          copy_out_past k b bs copy_ed out,
          copied,
          take-append_right b (concat bs) k',
          append_assoc out b (take k' (concat bs)),
        ),
        ground (arith, left, drop-append_right b (concat bs) k'),
        small,
      )
]

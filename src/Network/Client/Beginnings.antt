-- ===== src/Network/Client/Beginnings.antt =====
-- The beginnings of a request with a length are not ready, wherever they end.
use fion.Prelude.{
  ℕ, ◌+◌, ◌<◌, false, List, ◌∷◌, ◌++◌, ◌≡◌, sym, ap, ◌∙◌, arith, leb, ltb, length, length-append,
  append_assoc, All, Bool-cases, inl, inr,
}
use fion.Text.{Bytes, codes, find_text, u64_mod}
use fion.Text.Find.{LacksText}
use fion.Text.Prefix.{find_text-early, split_beginning}
use fion.Text.Crlf.{crlf, crlf_crlf, IsLine, head_text, find_text-crlf_crlf}
use fion.Network.Client.{content_length_name, is_text_ready}
use fion.Network.Client.Ready.{length_line-IsLine, All-append, is_text_ready-length, not_ready}
use fion.Network.Client.LengthLine.{request_with_length, length_line}

too_short :
    (b r body : Bytes) (n : ℕ)
    → body ≡ b ++ r
    → length body ≡ n
    → 0 < length r
    → leb n (length b) ≡ false
too_short b r body n rest full more = ground (arith, full, more, ap length rest, length-append b r)

module _ (start : Bytes) (before after : List Bytes) (n : ℕ) (hs : IsLine start)
    (hb : All IsLine before) (ha : All IsLine after) (small : n < u64_mod)
    (first : LacksText content_length_name
      (head_text (start ∷ before) ++ codes "Content-Length")) where
  pub beginning_not_ready :
      (body s r : Bytes)
      → length body ≡ n
      → 0 < length r
      → request_with_length (start ∷ before) n after body ≡ s ++ r
      → is_text_ready s ≡ false
  beginning_not_ready body s r full more same =
      let head = head_text (start ∷ (before ++ (length_line n ∷ after))) in
      let (i, found, e) =
        find_text-crlf_crlf start (before ++ (length_line n ∷ after)) body hs
          (All-append IsLine before (length_line n ∷ after) hb (length_line-IsLine n, ha)) in
      elim (Bool-cases (ltb (length s) (i + 4))) [
        | inl short ↦ not_ready s (
            find_text-early crlf_crlf s r i (ap (find_text crlf_crlf) (sym same) ∙ found)
              (ground (arith, short)))
        | inr long ↦
            let (b, cut, rest) =
              split_beginning (head ++ crlf) body s r (append_assoc head crlf body ∙ same)
                (ground (arith, long, e, length-append head crlf)) in
            ap is_text_ready (cut ∙ append_assoc head crlf b)
            ∙ is_text_ready-length start before after n b hs hb ha small first
            ∙ too_short b r body n rest full more
      ]

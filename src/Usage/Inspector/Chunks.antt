-- ===== src/Usage/Inspector/Chunks.antt =====
-- response_inspector.go: the answer depends on the response's bytes, not on how they were written.
use grok_search_mcp.Base.{
  ℕ, zero, suc, ◌+◌, ◌-◌, ◌≡◌, refl, ◌≤◌, inl, inr, Bool, true, false, not, ◌&&◌, ◌||◌, Option,
  List, [], ◌∷◌, ◌++◌, length, take, leb, eqb, if◌then◌else◌, if_false, Bool-cases, arith,
  length-append, take-append_counted, leb→le, append_nil, append_assoc, ◌∙◌, ap,
}
use grok_search_mcp.Usage.Inspector.{
  is_empty, ResultEnvelope, max_outcome_inspection_bytes, ResponseOutcomeInspector, new_inspector,
  sse_line_has_error, inspect_sse_line, inspect_byte, inspect_bytes, count_bytes, inspect,
  inspect_rest, inspect_json, finalize, tool_error, json_rpc_payload_has_tool_error,
}

or_false : (b : Bool) → (b || false) ≡ b
or_false true = refl
or_false false = refl

take_empty : (n : ℕ) (body : List ℕ) → is_empty body ≡ true → take n body ≡ []
unfolding is_empty
take_empty zero body h = refl
take_empty (suc n) [] h = refl
take_empty (suc n) (x ∷ xs) h = cc

module _ (trim : List ℕ → List ℕ) (decode_batch : List ℕ → Option (List (List ℕ)))
    (decode_envelope : List ℕ → Option ResultEnvelope) where
  -- Whether a line of the bytes, after those of a line that has begun, is one with an error. What
  -- follows the last line break is a line if it is not empty.
  unfoldable pub any_line : List ℕ → List ℕ → Bool
  any_line begun [] =
      not (is_empty begun) && sse_line_has_error trim decode_batch decode_envelope begun
  any_line begun (byte ∷ body) =
      let next = any_line [] body in
      let longer = any_line (begun ++ byte ∷ []) body in
      if eqb byte 10
      then sse_line_has_error trim decode_batch decode_envelope begun || next
      else longer

  -- What `write` has been called with.
  unfoldable pub inspect_all : List (List ℕ) → ResponseOutcomeInspector → ResponseOutcomeInspector
  inspect_all [] i = i
  inspect_all (body ∷ rest) i = inspect_all rest (inspect trim decode_batch decode_envelope body i)

  unfoldable pub concat : List (List ℕ) → List ℕ
  concat [] = []
  concat (body ∷ rest) = body ++ concat rest

  -- The lines that are left to see are those after the bytes that were seen.
  unfoldable pub Lines : List ℕ → ResponseOutcomeInspector → Type 0
  Lines seen i =
      (rest : List ℕ)
      → (i.latched_error || any_line i.sse_line_buffer rest) ≡ any_line [] (seen ++ rest)

  inspect_byte-Lines :
      (byte : ℕ) (seen : List ℕ) (i : ResponseOutcomeInspector)
      → Lines seen i
      → Lines (seen ++ byte ∷ []) (inspect_byte trim decode_batch decode_envelope byte i)
  unfolding Lines inspect_byte inspect_sse_line any_line
  inspect_byte-Lines byte seen i lines rest =
      let before = lines (byte ∷ rest) in
      elim (Bool-cases (eqb byte 10)) [
        | inr inside ↦ rw (inside, append_assoc seen (byte ∷ []) rest) (rw inside at before)
        | inl break ↦ elim (Bool-cases i.latched_error) [
          | inl latched ↦
              rw (break, latched, append_assoc seen (byte ∷ []) rest)
                (rw (break, latched) at before)
          | inr clean ↦
              elim (Bool-cases
                (sse_line_has_error trim decode_batch decode_envelope i.sse_line_buffer)) [
                  | inl bad ↦
                      rw (break, clean, bad, append_assoc seen (byte ∷ []) rest)
                        (rw (break, clean, bad) at before)
                  | inr good ↦
                      rw (break, clean, good, append_assoc seen (byte ∷ []) rest)
                        (rw (break, clean, good) at before)
                ]
        ]
      ]

  inspect_bytes-Lines :
      (body seen : List ℕ) (i : ResponseOutcomeInspector)
      → Lines seen i
      → Lines (seen ++ body) (inspect_bytes trim decode_batch decode_envelope body i)
  unfolding inspect_bytes
  inspect_bytes-Lines [] seen i lines = rw (append_nil seen) lines
  inspect_bytes-Lines (byte ∷ body) seen i lines =
      let step =
        inspect_bytes-Lines body (seen ++ byte ∷ [])
          (inspect_byte trim decode_batch decode_envelope byte i)
          (inspect_byte-Lines byte seen i lines) in
      rw (append_assoc seen (byte ∷ []) body) at step

  -- The fields that only `inspect` itself changes.
  abbrev pub Fields : Type 0
  Fields = List ℕ × ℕ × Bool

  abbrev pub fields : ResponseOutcomeInspector → Fields
  fields i = (i.json_capture, i.inspected_bytes, i.finalized)

  inspect_sse_line-fields :
      (line : List ℕ) (i : ResponseOutcomeInspector)
      → fields (inspect_sse_line trim decode_batch decode_envelope line i) ≡ fields i
  unfolding inspect_sse_line
  inspect_sse_line-fields line i = elim (Bool-cases i.latched_error) [
    | inl latched ↦ rw latched refl
    | inr clean ↦ elim (Bool-cases (sse_line_has_error trim decode_batch decode_envelope line)) [
      | inl bad ↦ rw (clean, bad) refl
      | inr good ↦ rw (clean, good) refl
    ]
  ]

  inspect_byte-fields :
      (byte : ℕ) (i : ResponseOutcomeInspector)
      → fields (inspect_byte trim decode_batch decode_envelope byte i) ≡ fields i
  unfolding inspect_byte
  inspect_byte-fields byte i = elim (Bool-cases (eqb byte 10)) [
    | inl break ↦ rw break (inspect_sse_line-fields i.sse_line_buffer i)
    | inr inside ↦ rw inside refl
  ]

  inspect_bytes-fields :
      (body : List ℕ) (i : ResponseOutcomeInspector)
      → fields (inspect_bytes trim decode_batch decode_envelope body i) ≡ fields i
  unfolding inspect_bytes
  inspect_bytes-fields [] i = refl
  inspect_bytes-fields (byte ∷ body) i =
      inspect_bytes-fields body (inspect_byte trim decode_batch decode_envelope byte i)
      ∙ inspect_byte-fields byte i

  -- What the inspector knows after the bytes of a prefix.
  record Saw (seen : List ℕ) (i : ResponseOutcomeInspector) : Type 0 where
    kept : fields i ≡ (seen, length seen, false)
    lines : Lines seen i

  grown-Saw :
      (seen body : List ℕ) (i : ResponseOutcomeInspector)
      → Saw seen i
      → Saw
          (seen ++ body)
          (inspect_bytes trim decode_batch decode_envelope body (count_bytes body i))
  unfolding count_bytes Lines
  grown-Saw seen body i v =
      let capture : i.json_capture ≡ seen = ap (λ (f : Fields). f.0) v.kept in
      let counted : i.inspected_bytes ≡ length seen = ap (λ (f : Fields). f.1) v.kept in
      let opened : i.finalized ≡ false = ap (λ (f : Fields). f.2) v.kept in
      let total : i.inspected_bytes + length body ≡ length (seen ++ body) =
        omega (arith, counted, length-append seen body) in
      record {
        kept = inspect_bytes-fields body (count_bytes body i) ∙ rw (capture, total, opened) refl;
        lines = inspect_bytes-Lines body seen (count_bytes body i) v.lines;
      }

  -- Nothing is left to see.
  same-Saw :
      (seen next : List ℕ) (i : ResponseOutcomeInspector)
      → next ≡ []
      → Saw seen i
      → Saw (seen ++ next) i
  same-Saw seen next i empty v = rw (empty, append_nil seen) v

  take-nothing : (n taken : ℕ) (xs : List ℕ) → n ≤ taken → take (n - taken) xs ≡ []
  take-nothing n taken xs h = let none_left : n - taken ≡ 0 = omega arith in rw none_left refl

  nothing-seen :
      (most : ℕ) (body : List ℕ) (i : ResponseOutcomeInspector)
      → i.finalized ≡ false
      → (i.finalized || is_empty body || leb most i.inspected_bytes) ≡ true
      → take (most - i.inspected_bytes) body ≡ []
  nothing-seen most body i opened stops = elim (Bool-cases (is_empty body)) [
    | inl empty ↦ take_empty (most - i.inspected_bytes) body empty
    | inr bytes ↦
        let full : leb most i.inspected_bytes ≡ true = rw (opened, bytes) at stops in
        take-nothing most i.inspected_bytes body (leb→le most i.inspected_bytes full)
  ]

  inspect-grown :
      (most : ℕ) (body seen : List ℕ) (i : ResponseOutcomeInspector)
      → Saw seen i
      → (stops : Bool) → (i.finalized || is_empty body || leb most i.inspected_bytes) ≡ stops
      → Saw (seen ++ take (most - i.inspected_bytes) body) (
          if stops
          then i
          else inspect_bytes trim decode_batch decode_envelope
              (take (most - i.inspected_bytes) body)
              (count_bytes (take (most - i.inspected_bytes) body) i))
  inspect-grown most body seen i v true stops =
      same-Saw seen (take (most - i.inspected_bytes) body) i
        (nothing-seen most body i (ap (λ (f : Fields). f.2) v.kept) stops) v
  inspect-grown most body seen i v false goes =
      grown-Saw seen (take (most - i.inspected_bytes) body) i v

  inspect-Saw :
      (body all : List ℕ) (i : ResponseOutcomeInspector)
      → Saw (take max_outcome_inspection_bytes all) i
      → Saw
          (take max_outcome_inspection_bytes (all ++ body))
          (inspect trim decode_batch decode_envelope body i)
  unfolding inspect
  inspect-Saw body all i v =
      let counted : i.inspected_bytes ≡ length (take max_outcome_inspection_bytes all) =
        ap (λ (f : Fields). f.1) v.kept in
      rw (take-append_counted max_outcome_inspection_bytes i.inspected_bytes all body counted) (
        inspect-grown max_outcome_inspection_bytes body (take max_outcome_inspection_bytes all) i v
          (i.finalized || is_empty body || leb max_outcome_inspection_bytes i.inspected_bytes) refl)

  inspect_all-Saw :
      (bodies : List (List ℕ)) (all : List ℕ) (i : ResponseOutcomeInspector)
      → Saw (take max_outcome_inspection_bytes all) i
      → Saw (take max_outcome_inspection_bytes (all ++ concat bodies)) (inspect_all bodies i)
  unfolding concat inspect_all
  inspect_all-Saw [] all i v = rw (append_nil all) v
  inspect_all-Saw (body ∷ rest) all i v =
      let step =
        inspect_all-Saw rest (all ++ body) (inspect trim decode_batch decode_envelope body i)
          (inspect-Saw body all i v) in
      rw (append_assoc all body (concat rest)) at step

  inspect_sse_line-latched :
      (line : List ℕ) (i : ResponseOutcomeInspector)
      → (inspect_sse_line trim decode_batch decode_envelope line i).latched_error
        ≡ (i.latched_error || sse_line_has_error trim decode_batch decode_envelope line)
  unfolding inspect_sse_line
  inspect_sse_line-latched line i = elim (Bool-cases i.latched_error) [
    | inl latched ↦ rw latched refl
    | inr clean ↦ elim (Bool-cases (sse_line_has_error trim decode_batch decode_envelope line)) [
      | inl bad ↦ rw (clean, bad) refl
      | inr good ↦ rw (clean, good) refl
    ]
  ]

  inspect_rest-latched :
      (i : ResponseOutcomeInspector)
      → (inspect_rest trim decode_batch decode_envelope i).latched_error
        ≡ (i.latched_error || any_line i.sse_line_buffer [])
  unfolding inspect_rest any_line
  inspect_rest-latched i = elim (Bool-cases (is_empty i.sse_line_buffer)) [
    | inl empty ↦ rw (empty, or_false i.latched_error) refl
    | inr begun ↦ rw begun (inspect_sse_line-latched i.sse_line_buffer i)
  ]

  inspect_rest-fields :
      (i : ResponseOutcomeInspector)
      → fields (inspect_rest trim decode_batch decode_envelope i) ≡ fields i
  unfolding inspect_rest
  inspect_rest-fields i = elim (Bool-cases (is_empty i.sse_line_buffer)) [
    | inl empty ↦ rw empty refl
    | inr begun ↦ rw begun (inspect_sse_line-fields i.sse_line_buffer i)
  ]

  inspect_json-latched :
      (i : ResponseOutcomeInspector)
      → (inspect_json trim decode_batch decode_envelope i).latched_error ≡ (
          i.latched_error
          || json_rpc_payload_has_tool_error trim decode_batch decode_envelope
              (trim i.json_capture))
  unfolding inspect_json
  inspect_json-latched i = elim (Bool-cases i.latched_error) [
    | inl latched ↦ rw latched refl
    | inr clean ↦
        elim (Bool-cases (
          json_rpc_payload_has_tool_error trim decode_batch decode_envelope
            (trim i.json_capture))) [
              | inl bad ↦ rw (clean, bad) refl
              | inr good ↦ rw (clean, good) refl
            ]
  ]

  -- The end of the response.
  tool_error-Saw :
      (seen : List ℕ) (i : ResponseOutcomeInspector)
      → Saw seen i
      → tool_error trim decode_batch decode_envelope i ≡ (
          any_line [] seen
          || json_rpc_payload_has_tool_error trim decode_batch decode_envelope (trim seen))
  unfolding tool_error finalize Lines
  tool_error-Saw seen i v =
      let closed : ResponseOutcomeInspector = record i { finalized = true } in
      let rest : ResponseOutcomeInspector = inspect_rest trim decode_batch decode_envelope closed in
      let capture : rest.json_capture ≡ seen =
        ap (λ (f : Fields). f.0) (inspect_rest-fields closed) ∙ ap (λ (f : Fields). f.0) v.kept in
      let opened : i.finalized ≡ false = ap (λ (f : Fields). f.2) v.kept in
      let left = v.lines [] in
      let ends : rest.latched_error ≡ any_line [] seen =
        inspect_rest-latched closed ∙ rw (append_nil seen) at left in
      let run : finalize trim decode_batch decode_envelope i
          ≡ inspect_json trim decode_batch decode_envelope rest =
        if_false i.finalized i (inspect_json trim decode_batch decode_envelope rest) opened in
      ap (λ (j : ResponseOutcomeInspector). j.latched_error) run
      ∙ inspect_json-latched rest
      ∙ rw (ends, capture) refl

  -- A response that is written in any number of chunks counts as a tool error exactly where its first
  -- 262144 bytes have an event-stream line that carries an error or are, as a whole, a JSON payload with
  -- one.
  pub tool_error-inspect_all :
      (bodies : List (List ℕ))
      → tool_error trim decode_batch decode_envelope (inspect_all bodies new_inspector) ≡ (
          any_line [] (take max_outcome_inspection_bytes (concat bodies))
          || json_rpc_payload_has_tool_error trim decode_batch decode_envelope
              (trim (take max_outcome_inspection_bytes (concat bodies))))
  unfolding Lines
  tool_error-inspect_all bodies =
      tool_error-Saw (take max_outcome_inspection_bytes (concat bodies))
        (inspect_all bodies new_inspector)
        (inspect_all-Saw bodies [] new_inspector (record { kept = refl; lines = λ rest. refl }))

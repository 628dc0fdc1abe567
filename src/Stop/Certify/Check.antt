-- ===== src/Stop/Certify/Check.antt =====
-- `check_counter_certify` of crates/attest-stop/src/lib.rs decides what the TPM's statement says.
use tactiq_attest.Base.{
  ℕ, ◌^◌, ◌<◌, Bytes, IsByte, All, true, ◌≡◌, sym, ap, ◌∙◌, length, to_be, from_be, ok, arith,
  bytes_eq, bytes_eq→eq, bytes_eq_refl, ◌==◌, bind-eq-ok, eq→==, length-to_be, from_be-to_be,
  to_be-from_be, ◌↔◌, from_be-lt,
}
use tactiq_attest.Stop.Certify.{NvCertifyInfo, parse_nv_certify_info, check_counter_certify}
use tactiq_attest.Stop.Certify.Exact.{layout, layout-parse_nv_certify_info}

-- The statement that the counter of the index `name` reads `epoch`, bound to `qualifying`.
pub record States (qualifying name : Bytes) (epoch : ℕ) (i : NvCertifyInfo) : Type 0 where
  pub extra_data : i.extra_data ≡ qualifying
  pub index_name : i.index_name ≡ name
  pub offset : i.offset ≡ 0
  pub contents : i.contents ≡ to_be 8 epoch

module _ (attest qualifying name : Bytes) (epoch : ℕ) where
  pub check_ok :
      check_counter_certify attest qualifying name epoch ≡ ok tt
      → (i : NvCertifyInfo) × (parse_nv_certify_info attest ≡ ok i)
        × (bytes_eq i.extra_data qualifying ≡ true)
        × (bytes_eq i.index_name name ≡ true)
        × (i.offset ≡ 0)
        × (length i.contents ≡ 8)
        × (from_be i.contents ≡ epoch)
  unfolding check_counter_certify
  check_ok e =
      let (i, ei, e1) = bind-eq-ok (parse_nv_certify_info attest) _ e in
      (i, ei, ground arith, ground arith, ground arith, ground arith, ground arith)

  -- A statement of the TPM that passes the check says that the index of this name holds this
  -- epoch, at offset 0 in eight bytes, for this qualifying data, and it has no bytes beyond those
  -- of its fields and of the firmware version.
  pub check_counter_certify_sound :
      All IsByte attest
      → check_counter_certify attest qualifying name epoch ≡ ok tt
      → (i : NvCertifyInfo) × States qualifying name epoch i
        × ((firmware : Bytes) × (length firmware ≡ 8) × (layout i firmware ≡ attest))
  check_counter_certify_sound h e =
      let (i, ei, ed, en, off, len, value) = check_ok e in
      let (w, hc, whole) = layout-parse_nv_certify_info attest i h ei in
      (
        i,
        record {
          extra_data = bytes_eq→eq _ _ ed;
          index_name = bytes_eq→eq _ _ en;
          offset = off;
          contents = rw (← value) (sym (to_be-from_be 8 i.contents len hc));
        },
        whole,
      )

  -- A statement that parses and says that the index of this name holds this epoch of 64 bits, for
  -- this qualifying data, passes the check.
  pub check_counter_certify_complete :
      (i : NvCertifyInfo)
      → parse_nv_certify_info attest ≡ ok i
      → States qualifying name epoch i
      → epoch < 2 ^ 64
      → check_counter_certify attest qualifying name epoch ≡ ok tt
  unfolding check_counter_certify
  check_counter_certify_complete i ei s fits =
      let len : (length i.contents == 8) ≡ true =
        eq→== _ _ (ap length s.contents ∙ length-to_be 8 epoch) in
      let value : (from_be i.contents == epoch) ≡ true =
        eq→== _ _ (ap from_be s.contents ∙ from_be-to_be 8 epoch fits) in
      let extra : bytes_eq i.extra_data qualifying ≡ true =
        ap (bytes_eq i.extra_data) (sym s.extra_data) ∙ bytes_eq_refl i.extra_data in
      let name' : bytes_eq i.index_name name ≡ true =
        ap (bytes_eq i.index_name) (sym s.index_name) ∙ bytes_eq_refl i.index_name in
      rw (ei, extra, name', s.offset, len, value)

  -- A statement of the TPM passes the check exactly when it parses and says that the index of this
  -- name holds this epoch of 64 bits, at offset 0 in eight bytes, for this qualifying data.
  pub check_counter_certify_exact :
      All IsByte attest
      → (check_counter_certify attest qualifying name epoch ≡ ok tt) ↔ (
          (i : NvCertifyInfo) × (parse_nv_certify_info attest ≡ ok i)
          × States qualifying name epoch i
          × (epoch < 2 ^ 64))
  check_counter_certify_exact h = (
    λ e.
        let (i, ei, ed, en, off, len, value) = check_ok e in
        let (_, hc, _) = layout-parse_nv_certify_info attest i h ei in
        (
          i,
          ei,
          record {
            extra_data = bytes_eq→eq _ _ ed;
            index_name = bytes_eq→eq _ _ en;
            offset = off;
            contents = rw (← value) (sym (to_be-from_be 8 i.contents len hc));
          },
          rw (← value) (from_be-lt 8 i.contents len hc),
        ),
    λ (i, ei, s, fits). check_counter_certify_complete i ei s fits,
  )

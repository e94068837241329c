-- ===== src/Services/Compute/Flags.antt =====
-- What the processor says of itself where NovaHypervisor chooses between KVM and emulation.
use microstack.Base.{
  String, ◌<>◌, ◌==◌, eq_iff, ◌≡◌, refl, ap, ◌∙◌, sym, Bool, true, false, Option, none, some, List,
  [], ◌∷◌, contains, if◌then◌else◌, arith, Bool-cases, inl, inr, ◌⊎◌, strip,
}
use microstack.Json.{Json, str, arr, Items}
use microstack.Machine.{command, History, Host, World, after_event, json_decode_error}
use microstack.Machine.Monad.{
  or_raise-eq-ok, lift-eq-ok, ok, lift, or_raise, and_then-eq-ok, bind-eq-ok,
}
use microstack.Shell.{check_output, config_set}
use microstack.Shell.Laws.{check-eq-ok, check_output-eq-ok}
use microstack.Cluster.Client.{item}
use microstack.Services.Compute.Virtualization.{
  find_field, data_of, split_of, flags_of, vendor_of, list_is, judge_vendor, judge_cpu, entries,
  hw_virt, is_hw_virt_supported, maybe_enable_emulation,
}

-- The flag by which a vendor's processors tell that they support virtualization.
abbrev pub vendor_flag : String → Option String
vendor_flag v =
    if v == "AuthenticAMD"
    then some "svm"
    else if v == "GenuineIntel"
    then some "vmx"
    else if v == "IBM/S390"
    then some "sie"
    else none

judge_vendor-flag :
    (vendor : Option Json) (flags : Option (List String))
    → judge_vendor vendor flags ≡ true
    → (v flag : String) × (found : List String) × (vendor ≡ some (str v))
      × (flags ≡ some found)
      × (vendor_flag v ≡ some flag)
      × (contains found flag ≡ true)
unfolding judge_vendor
judge_vendor-flag (some (str v)) (some flags) e = elim (Bool-cases (v == "AuthenticAMD")) [
  | inl amd ↦
      let e' = rw ((eq_iff v "AuthenticAMD").0 amd) at e in
      (v, "svm", flags, refl, refl, rw amd refl, ground arith)
  | inr amd ↦ elim (Bool-cases (v == "GenuineIntel")) [
    | inl intel ↦
        let e' = rw ((eq_iff v "GenuineIntel").0 intel) at e in
        (v, "vmx", flags, refl, refl, rw (amd, intel) refl, ground arith)
    | inr intel ↦ elim (Bool-cases (v == "IBM/S390")) [
      | inl ibm ↦
          let e' = rw ((eq_iff v "IBM/S390").0 ibm) at e in
          (v, "sie", flags, refl, refl, rw (amd, intel, ibm) refl, ground arith)
      | inr ibm ↦ absurd (ground arith)
    ]
  ]
]
judge_vendor-flag _ _ e = absurd (cc)

judge_vendor-found :
    (v flag : String) (found : List String)
    → vendor_flag v ≡ some flag
    → contains found flag ≡ true
    → judge_vendor (some (str v)) (some found) ≡ true
unfolding judge_vendor
judge_vendor-found v flag found e c = elim (Bool-cases (v == "AuthenticAMD")) [
  | inl amd ↦
      let e₁ = rw amd at e in let same : "svm" ≡ flag = cc in rw (amd, rw (← same) at c) refl
  | inr amd ↦ elim (Bool-cases (v == "GenuineIntel")) [
    | inl intel ↦
        let e₁ = rw (amd, intel) at e in
        let same : "vmx" ≡ flag = cc in rw (amd, intel, rw (← same) at c) refl
    | inr intel ↦ elim (Bool-cases (v == "IBM/S390")) [
      | inl ibm ↦
          let e₁ = rw (amd, intel, ibm) at e in
          let same : "sie" ≡ flag = cc in rw (amd, intel, ibm, rw (← same) at c) refl
      | inr ibm ↦ let e₁ = rw (amd, intel, ibm) at e in absurd (cc)
    ]
  ]
]

-- The entries name a vendor, and the flag of this vendor is among the flags.
pub record HasFlag (info : Items) : Type 0 where
  pub vendor : String
  pub flag : String
  pub flags : List String
  pub vendor_entry : Option Json
  pub flags_entry : Option Json
  pub finds_vendor : find_field "Vendor ID:" info ≡ ok vendor_entry
  pub is_vendor : vendor_of vendor_entry ≡ ok (some (str vendor))
  pub finds_flags : find_field "Flags:" info ≡ ok flags_entry
  pub are_flags : flags_of flags_entry ≡ ok (some flags)
  pub has_flag : vendor_flag vendor ≡ some flag
  pub is_found : contains flags flag ≡ true

hw_virt-HasFlag :
    (info : Items) (b : Bool)
    → hw_virt info ≡ ok b
    → ((b ≡ true) × HasFlag info) ⊎ ((b ≡ false) × ¬ HasFlag info)
unfolding hw_virt judge_cpu list_is
hw_virt-HasFlag info b e =
    let (a, p₁, e₁) = and_then-eq-ok (find_field "Architecture:" info) _ e in
    let (d, p₂, e₂) = and_then-eq-ok (data_of a) _ e₁ in
    let (arch, p₃, e₃) = and_then-eq-ok (split_of d) _ e₂ in
    let (f, p₄, e₄) = and_then-eq-ok (find_field "Flags:" info) _ e₃ in
    let (flags, p₅, e₅) = and_then-eq-ok (flags_of f) _ e₄ in
    let (u, p₆, e₆) = and_then-eq-ok (find_field "Vendor ID:" info) _ e₅ in
    let (vendor, p₇, e₇) = and_then-eq-ok (vendor_of u) _ e₆ in
    go f flags u vendor p₄ p₅ p₆ p₇ (judge_vendor vendor flags) refl (cc)
  where
    go :
        (f : Option Json) (flags : Option (List String)) (u vendor : Option Json)
        → find_field "Flags:" info ≡ ok f
        → flags_of f ≡ ok flags
        → find_field "Vendor ID:" info ≡ ok u
        → vendor_of u ≡ ok vendor
        → (c : Bool) → judge_vendor vendor flags ≡ c
        → c ≡ b
        → ((b ≡ true) × HasFlag info) ⊎ ((b ≡ false) × ¬ HasFlag info)
    go f flags u vendor p₄ p₅ p₆ p₇ true j q =
        let (v, flag, found, q₁, q₂, q₃, q₄) = judge_vendor-flag vendor flags j in
        inl (
          sym q,
          record {
            vendor = v;
            flag = flag;
            flags = found;
            vendor_entry = u;
            flags_entry = f;
            finds_vendor = p₆;
            is_vendor = rw (← q₁) p₇;
            finds_flags = p₄;
            are_flags = rw (← q₂) p₅;
            has_flag = q₃;
            is_found = q₄;
          },
        )
    go f flags u vendor p₄ p₅ p₆ p₇ false j q = inr (
      sym q,
      λ has.
          let t = judge_vendor-found has.vendor has.flag has.flags has.has_flag has.is_found in
          let same_u : u ≡ has.vendor_entry = cc (p₆, has.finds_vendor) in
          let same_f : f ≡ has.flags_entry = cc (p₄, has.finds_flags) in
          let same_v : vendor ≡ some (str has.vendor) = cc (p₇, has.is_vendor, same_u) in
          let same_g : flags ≡ some has.flags = cc (p₅, has.are_flags, same_f) in
          cc (t, j, same_v, same_g),
    )

abbrev pub lscpu_command : List String
lscpu_command = "lscpu" ∷ "-J" ∷ []

-- `lscpu -J` printed these entries.
pub record Prints (h : Host) (log : History) (info : Items) : Type 0 where
  pub doc : Json
  pub succeeds : h.status log lscpu_command ≡ 0
  pub loads : h.loads (strip (h.output log lscpu_command)) ≡ some doc
  pub lists : item "lscpu" doc ≡ ok (arr info)

-- The log of a run that stores a type of virtualization, newest first.
abbrev pub chosen : String → History → History
chosen kind log =
    command ("snapctl" ∷ "set" ∷ "config.nova.cpu-mode=host-passthrough" ∷ [])
    ∷ command ("snapctl" ∷ "set" ∷ ("config.nova.virt-type" <> ("=" <> kind)) ∷ [])
    ∷ command lscpu_command
    ∷ log

module _ (h : Host) where
  is_hw_virt_supported-HasFlag :
      (w w' : World) (b : Bool)
      → is_hw_virt_supported h w ≡ (ok b, w')
      → (info : Items) × Prints h w.log info
        × (w' ≡ after_event (command lscpu_command) w)
        × (((b ≡ true) × HasFlag info) ⊎ ((b ≡ false) × ¬ HasFlag info))
  unfolding is_hw_virt_supported entries
  is_hw_virt_supported-HasFlag w w' b e =
      let (t, v₁, p₁, e₁) = bind-eq-ok (check_output h lscpu_command) _ w w' e in
      let (d, v₂, p₂, e₂) = bind-eq-ok (or_raise (h.loads t) (json_decode_error t)) _ v₁ w' e₁ in
      let (l, v₃, p₃, e₃) = bind-eq-ok (lift (item "lscpu" d)) _ v₂ w' e₂ in
      let (info, v₄, p₄, e₄) = bind-eq-ok (lift (entries l)) _ v₃ w' e₃ in
      let (s, tq, w₁) = check_output-eq-ok h lscpu_command w v₁ t p₁ in
      let (dq, w₂) = or_raise-eq-ok (h.loads t) _ v₁ v₂ d p₂ in
      let (lq, w₃) = lift-eq-ok (item "lscpu" d) v₂ v₃ l p₃ in
      let (iq, w₄) = lift-eq-ok (entries l) v₃ v₄ info p₄ in
      let (bq, w₅) = lift-eq-ok (hw_virt info) v₄ w' b e₄ in
      (
        info,
        record {
          doc = d;
          succeeds = s;
          loads = rw (← tq) dq;
          lists = lq ∙ ap ok (listed l info iq);
        },
        cc,
        hw_virt-HasFlag info b bq,
      )
    where
      listed : (l : Json) (info : Items) → entries l ≡ ok info → l ≡ arr info
      listed (arr items) info q = cc
      listed _ info q = absurd (cc)

  -- A choice of the type of virtualization that returns has read the entries of `lscpu`, and then
  -- stores kvm if these name a vendor that is AuthenticAMD, GenuineIntel or IBM/S390 and have the
  -- flag svm, vmx or sie of this vendor, and qemu if not, and after that the mode of the processor.
  -- The architecture never decides it, not on ppc64 either, where a comment of the program assumes
  -- support: its test compares a list with texts.
  pub maybe_enable_emulation-HasFlag :
      (w w' : World)
      → maybe_enable_emulation h w ≡ (ok tt, w')
      → (info : Items) × Prints h w.log info
        × ((HasFlag info × (w'.log ≡ chosen "kvm" w.log))
            ⊎ ((¬ HasFlag info) × (w'.log ≡ chosen "qemu" w.log)))
  unfolding maybe_enable_emulation config_set
  maybe_enable_emulation-HasFlag w w' e =
      let (b, v₁, p₁, e₁) = bind-eq-ok (is_hw_virt_supported h) _ w w' e in
      let (_, v₂, p₂, e₂) =
        bind-eq-ok (config_set h (("config.nova.virt-type", if b then "kvm" else "qemu") ∷ [])) _ v₁
          w' e₁ in
      let (info, prints, w₁, found) = is_hw_virt_supported-HasFlag w v₁ b p₁ in
      let (_, w₂) = check-eq-ok h _ v₁ v₂ p₂ in
      let (_, w₃) = check-eq-ok h _ v₂ w' e₂ in
      let logs : w'.log ≡ chosen (if b then "kvm" else "qemu") w.log = rw (w₃, w₂, w₁) refl in
      (
        info,
        prints,
        elim found [
          | inl (p, has) ↦ inl (has, rw p at logs)
          | inr (p, lacks) ↦ inr (lacks, rw p at logs)
        ],
      )

-- ===== src/Init/Arguments/Checked.antt =====
-- What the arguments that argparse lets through satisfy.
use microstack.Base.{
  ◌≤◌, String, ◌≡◌, refl, Option, none, some, inl, inr, ap, subst, Bool-cases, ltb, arith,
}
use microstack.Machine.Monad.{Outcome, ok, raised, and_then, and_then-eq-ok}
use microstack.Addresses.{Netifaces}
use microstack.Init.{InitArgs}
use microstack.Init.Arguments.{
  ℤ, pos, negsuc, below_one, nat_of, Readers, check_file_size_positive,
  check_source_ip_address_valid, Line, or_exit, size_of, addr_of, file_size, source_ip,
  parse_init_args,
}

-- An address as `ipaddress` writes it, or none where the default has none.
abbrev pub IsAddress : Readers → Option String → Type 0
IsAddress r none = Unit
IsAddress r (some ip) = (value : String) × (r.ip_address value ≡ some ip)

-- A size that is a natural number and at least one.
abbrev IsPositive : ℤ → Type 0
IsPositive (pos n) = 1 ≤ n
IsPositive (negsuc n) = 1 ≤ 0

or_exit-size_of :
    (o : Option ℤ) (value : String) (size : ℤ)
    → or_exit (size_of value o) ≡ ok size
    → IsPositive size
unfolding size_of or_exit below_one
or_exit-size_of none value size e = absurd (cc)
or_exit-size_of (some (pos n)) value size e = elim (Bool-cases (ltb n 1)) [
  | inl l ↦ absurd (ground arith)
  | inr l ↦ ground arith
]
or_exit-size_of (some (negsuc n)) value size e = absurd (cc)

or_exit-addr_of :
    (o : Option String) (value addr : String) → or_exit (addr_of value o) ≡ ok addr → o ≡ some addr
unfolding addr_of or_exit
or_exit-addr_of none value addr e = absurd (cc)
or_exit-addr_of (some a) value addr e = cc

-- What an outcome that is a value holds.
value_of {ℓ} : {A : Type ℓ} → A → Outcome A → A
value_of a (ok b) = b
value_of a (raised x) = a

ok-inj {ℓ} : {A : Type ℓ} {a b : A} → ok a ≡ ok b → a ≡ b
unfolding value_of
ok-inj {a = a} e = ap (value_of a) e

nat_of-IsPositive : (size : ℤ) → IsPositive size → 1 ≤ nat_of size
nat_of-IsPositive (pos n) p = p
nat_of-IsPositive (negsuc n) p = p

module _ (r : Readers) where
  read_ip :
      (value : String) (ip : Option String)
      → and_then (or_exit (check_source_ip_address_valid r value)) (λ addr. ok (some addr)) ≡ ok ip
      → IsAddress r ip
  unfolding check_source_ip_address_valid
  read_ip value ip e =
      let (addr, p, q) = and_then-eq-ok _ _ e in
      subst (IsAddress r) (ok-inj q) (value, or_exit-addr_of (r.ip_address value) value addr p)

  file_size-IsPositive :
      (given : Option String) (size : ℤ) → file_size r given ≡ ok size → IsPositive size
  unfolding file_size check_file_size_positive
  file_size-IsPositive none size e = subst IsPositive (ok-inj e) (omega arith)
  file_size-IsPositive (some value) size e = or_exit-size_of (r.int value) value size e

  source_ip-IsAddress :
      (given fallback ip : Option String) → source_ip r given fallback ≡ ok ip → IsAddress r ip
  unfolding source_ip check_source_ip_address_valid
  source_ip-IsAddress none none ip e = subst (IsAddress r) (ok-inj e) tt
  source_ip-IsAddress none (some value) ip e = read_ip value ip e
  source_ip-IsAddress (some value) fallback ip e = read_ip value ip e

  -- Arguments that argparse lets through have the flags, but for debug, and the connection string
  -- of the command line, a size of the loop device of at least 1, and, as the source address, none
  -- or an address as ipaddress writes it.
  pub parse_init_args-IsChecked :
      (n : Netifaces) (line : Line) (a : InitArgs)
      → parse_init_args r n line ≡ ok a
      → (1 ≤ a.loop_device_file_size)
        × IsAddress r a.default_source_ip
        × (a.auto ≡ line.auto)
        × (a.control ≡ line.control)
        × (a.compute ≡ line.compute)
        × (a.setup_loop_based_cinder_lvm_backend ≡ line.setup_loop_based_cinder_lvm_backend)
        × (a.connection_string ≡ line.connection_string)
  unfolding parse_init_args
  parse_init_args-IsChecked n line a e =
      let (fallback, p, e₁) = and_then-eq-ok _ _ e in
      let (size, q, e₂) = and_then-eq-ok _ _ e₁ in
      let (ip, s, e₃) = and_then-eq-ok _ _ e₂ in
      subst
        (λ b.
          (1 ≤ b.loop_device_file_size)
          × IsAddress r b.default_source_ip
          × (b.auto ≡ line.auto)
          × (b.control ≡ line.control)
          × (b.compute ≡ line.compute)
          × (b.setup_loop_based_cinder_lvm_backend ≡ line.setup_loop_based_cinder_lvm_backend)
          × (b.connection_string ≡ line.connection_string))
        (ok-inj e₃)
        (
          nat_of-IsPositive size (file_size-IsPositive line.loop_device_file_size size q),
          source_ip-IsAddress line.default_source_ip fallback ip s,
          refl,
          refl,
          refl,
          refl,
          refl,
        )

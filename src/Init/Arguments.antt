-- ===== src/Init/Arguments.antt =====
-- tools/init/init/main.py: the arguments of `init`, as argparse reads them, with the two checks.
pub mod Checked
use microstack.Base.{
  ℕ, zero, suc, String, Bool, true, false, ltb, Option, none, some, if◌then◌else◌,
}
use microstack.Machine.{value_error, argument_type_error, system_exit}
use microstack.Machine.Monad.{Outcome, ok, raised, and_then}
use microstack.Addresses.{Netifaces, fallback_source_address}
use microstack.Init.{InitArgs}

-- An integer; `negsuc n` is - (n + 1).
pub data ℤ : Type 0 where
  pos negsuc : ℕ → ℤ

-- `ival < 1`
unfoldable pub below_one : ℤ → Bool
below_one (pos n) = ltb n 1
below_one (negsuc n) = true

-- Python's `int` of a text, and `str(ipaddress.ip_address(value))`, both `none` where they raise
-- ValueError.
pub record Readers : Type 0 where
  pub int : String → Option ℤ
  pub ip_address : String → Option String

-- The two checks, on what the readers made of the text.
unfoldable pub size_of : String → Option ℤ → Outcome ℤ
unfolding below_one
size_of value none = raised (value_error "int")
size_of value (some ival) = if below_one ival then raised (argument_type_error value) else ok ival

unfoldable pub check_file_size_positive : Readers → String → Outcome ℤ
unfolding size_of
check_file_size_positive r value = size_of value (r.int value)

unfoldable pub addr_of : String → Option String → Outcome String
addr_of value none = raised (argument_type_error value)
addr_of value (some addr) = ok addr

unfoldable pub check_source_ip_address_valid : Readers → String → Outcome String
unfolding addr_of
check_source_ip_address_valid r value = addr_of value (r.ip_address value)

-- What stands on the command line, each option as it is given.
pub record Line : Type 0 where
  pub auto : Bool
  pub connection_string : Option String
  pub compute : Bool
  pub control : Bool
  pub setup_loop_based_cinder_lvm_backend : Bool
  pub loop_device_file_size : Option String
  pub default_source_ip : Option String

-- argparse on an error of a `type`: a message and status 2.
unfoldable pub or_exit {ℓ} : {A : Type ℓ} → Outcome A → Outcome A
or_exit (raised (value_error message)) = raised (system_exit 2)
or_exit (raised (argument_type_error message)) = raised (system_exit 2)
or_exit r = r

-- An option and its default, which is a number and is not read.
unfoldable pub file_size : Readers → Option String → Outcome ℤ
unfolding check_file_size_positive or_exit
file_size r none = ok (pos 32)
file_size r (some value) = or_exit (check_file_size_positive r value)

-- An option and its default: a text is read as an argument is, None is not.
unfoldable pub source_ip : Readers → Option String → Option String → Outcome (Option String)
unfolding check_source_ip_address_valid or_exit
source_ip r none none = ok none
source_ip r none (some fallback) =
    and_then (or_exit (check_source_ip_address_valid r fallback)) (λ addr. ok (some addr))
source_ip r (some value) fallback =
    and_then (or_exit (check_source_ip_address_valid r value)) (λ addr. ok (some addr))

-- A number that is not below one.
abbrev pub nat_of : ℤ → ℕ
nat_of (pos n) = n
nat_of (negsuc n) = 0

-- `parse_init_args`; the order of the two checks is that of the options, and both exit alike.
unfoldable pub parse_init_args : Readers → Netifaces → Line → Outcome InitArgs
unfolding file_size source_ip
parse_init_args r n line = and_then (fallback_source_address n) λ fallback.
    and_then (file_size r line.loop_device_file_size) λ size.
      and_then (source_ip r line.default_source_ip fallback) λ ip. ok (record {
        auto = line.auto;
        connection_string = line.connection_string;
        compute = line.compute;
        control = line.control;
        setup_loop_based_cinder_lvm_backend = line.setup_loop_based_cinder_lvm_backend;
        loop_device_file_size = nat_of size;
        default_source_ip = ip;
      })

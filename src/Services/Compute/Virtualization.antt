-- ===== src/Services/Compute/Virtualization.antt =====
-- NovaHypervisor: KVM where the processor supports it, and emulation elsewhere.
use microstack.Base.{
  String, ◌==◌, Bool, true, false, ◌&&◌, Option, none, some, List, [], ◌∷◌, any, contains, words,
  if◌then◌else◌,
}
use microstack.Json.{is_str, Json, str, arr, Items, nil, cons}
use microstack.Machine.{Host, attribute_error, type_error, json_decode_error}
use microstack.Machine.Monad.{Outcome, ok, raised, Action, lift, or_raise, and_then, ◌>>=◌, ◌>>◌}
use microstack.Shell.{check_output, config_set, enable, disable}
use microstack.Question.{Answer}
use microstack.Cluster.Client.{item}

-- `next(filter(lambda x: x['field'] == field, cpu_info), None)`
unfoldable pub find_field : String → Items → Outcome (Option Json)
unfolding item is_str and_then
find_field field nil = ok none
find_field field (cons x rest) =
    let later = find_field field rest in
    and_then (item "field" x) λ name. if is_str field name then ok (some x) else later

-- `value['data']`, of a value that may be None.
unfoldable pub data_of : Option Json → Outcome Json
unfolding item
data_of none = raised (type_error "data")
data_of (some x) = item "data" x

-- `value.split()`
unfoldable pub split_of : Json → Outcome (List String)
split_of (str s) = ok (words s)
split_of _ = raised (attribute_error "split")

-- `if flags is not None: flags = flags['data'].split()`
unfoldable pub flags_of : Option Json → Outcome (Option (List String))
unfolding data_of split_of and_then
flags_of none = ok none
flags_of (some x) =
    and_then (data_of (some x)) (λ text. and_then (split_of text) (λ flags. ok (some flags)))

-- `if vendor_id is not None: vendor_id = vendor_id['data']`
unfoldable pub vendor_of : Option Json → Outcome (Option Json)
unfolding data_of and_then
vendor_of none = ok none
vendor_of (some x) = and_then (data_of (some x)) λ vendor. ok (some vendor)

-- `words == text` of Python: a list of texts is never equal to a text.
unfoldable pub list_is : List String → String → Bool
list_is words text = false

-- The tests on the vendor and the flags.
unfoldable pub judge_vendor : Option Json → Option (List String) → Bool
judge_vendor (some (str v)) (some flags) =
    if v == "AuthenticAMD" && contains flags "svm"
    then true
    else if v == "GenuineIntel" && contains flags "vmx"
    then true
    else if v == "IBM/S390" && contains flags "sie"
    then true
    else false
judge_vendor _ _ = false

unfoldable pub judge_cpu : List String → Option Json → Option (List String) → Bool
unfolding list_is judge_vendor
judge_cpu architecture vendor flags =
    if any (list_is architecture) ("ppc64" ∷ "ppc64le" ∷ [])
    then true
    else judge_vendor vendor flags

-- `cpu_info`, a list of objects.
unfoldable pub entries : Json → Outcome Items
entries (arr l) = ok l
entries _ = raised (type_error "lscpu")

-- `_is_hw_virt_supported`, from the entries that `lscpu -J` lists.
unfoldable pub hw_virt : Items → Outcome Bool
unfolding find_field data_of split_of flags_of vendor_of judge_cpu and_then
hw_virt info = and_then (find_field "Architecture:" info) (λ a. and_then (data_of a) (λ text.
    and_then (split_of text) (λ architecture. and_then (find_field "Flags:" info) (λ f.
      and_then (flags_of f) (λ flags.
        and_then (find_field "Vendor ID:" info)
          (λ v. and_then (vendor_of v) (λ vendor. ok (judge_cpu architecture vendor flags))))))))

unfoldable pub is_hw_virt_supported : Host → Action Bool
unfolding hw_virt entries item
is_hw_virt_supported h = do
  text ← check_output h ("lscpu" ∷ "-J" ∷ [])
  doc ← or_raise (h.loads text) (json_decode_error text)
  listed ← lift (item "lscpu" doc)
  info ← lift (entries listed)
  lift (hw_virt info)

-- `_maybe_enable_emulation`
unfoldable pub maybe_enable_emulation : Host → Action (Unit {0})
unfolding is_hw_virt_supported
maybe_enable_emulation h = do
  supported ← is_hw_virt_supported h
  config_set h (("config.nova.virt-type", if supported then "kvm" else "qemu") ∷ [])
  config_set h (("config.nova.cpu-mode", "host-passthrough") ∷ [])

unfoldable pub hypervisor_yes : Host → Answer → Action (Unit {0})
unfolding maybe_enable_emulation
hypervisor_yes h answer = do
  maybe_enable_emulation h
  enable h "libvirtd"
  enable h "virtlogd"
  enable h "nova-compute"

unfoldable pub hypervisor_no : Host → Answer → Action (Unit {0})
hypervisor_no h answer = do disable h "libvirtd"; disable h "virtlogd"; disable h "nova-compute"

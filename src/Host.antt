-- ===== src/Host.antt =====
-- common/Util.cpp: the name and the address of this host, and of others. What the calls of
-- <ifaddrs.h>, <netdb.h> and <arpa/inet.h> answer is an argument; a NULL is `none`.
use Prim.Native.String.{String}
use text.Mathlib.Text.{◌==◌}
use timer_and_callback.Wire.{c_string}
use timer_and_callback.Base.{
  ℕ, Bool, ◌≡◌, ◌≢◌, refl, Option, none, some, List, [], ◌∷◌, if◌then◌else◌, Bool-cases, ◌⊎◌, inl,
  inr, Run, ok, fault,
}

-- `sa_family`
pub data Family : Type 0 where
  af_inet af_inet6 af_other : Family

-- An entry of the list of `getifaddrs`. With the address stands how `inet_ntop` writes it.
pub record Interface : Type 0 where
  pub ifa_name : String
  pub ifa_addr : Option (Family × String)

-- `gethostname` answers none where it fails.
pub get_my_hostname : Option String → String
get_my_hostname none = "Invalid.Hostname"
get_my_hostname (some hostname) = hostname

-- The loop over the interfaces.
pub look_for_eth0 : List Interface → (my_ip : String) → Run String
look_for_eth0 [] my_ip = ok my_ip
look_for_eth0 (this_interface ∷ next) my_ip = elim this_interface.ifa_addr [
  | none ↦ fault
  | some (Family.af_inet, addr_string) ↦
      let rest = look_for_eth0 next addr_string in
      if this_interface.ifa_name == "eth0" then ok addr_string else rest
  | some (Family.af_inet6, addr_string) ↦ look_for_eth0 next my_ip
  | some (Family.af_other, addr_string) ↦ look_for_eth0 next my_ip
]

pub get_my_ip_address : List Interface → Run String
unfolding look_for_eth0
get_my_ip_address interfaces = look_for_eth0 interfaces "Invalid.IP"

-- `gethostbyname`: the addresses of the host. The `assert (1)` for an unknown host never fails.
pub get_ip_address_from_name : Option (List ℕ) → Run ℕ
get_ip_address_from_name none = fault
get_ip_address_from_name (some []) = fault
get_ip_address_from_name (some (address ∷ addresses)) = ok address

-- `gethostbyaddr`: the name of the host.
pub get_name_from_ip_address : Option String → Run String
get_name_from_ip_address none = fault
get_name_from_ip_address (some h_name) = ok h_name

-- The random UUID that `uuid_generate_random` makes, as `uuid_unparse` writes it to a buffer of 37
-- bytes.
pub get_new_uuid_string {ℓ ℓ'} :
    {System : Type ℓ} {Uuid : Type ℓ'} (uuid_generate_random : System → Uuid × System)
    (uuid_unparse : Uuid → List ℕ)
    → System
    → List ℕ × System
get_new_uuid_string uuid_generate_random uuid_unparse system =
    let (new_uuid, system') = uuid_generate_random system in
    (c_string (uuid_unparse new_uuid), system')

-- Its body is commented out: the end of a function that is to return a value is undefined behaviour.
pub get_32_bit_random_number : Run ℕ
get_32_bit_random_number = fault

-- The file is replaced by the bytes of the stream, if it can be opened for writing.
pub dump_binary_to_file :
    (opens : Bool) (filepath : String) (os : List ℕ)
    → (String → Option (List ℕ))
    → String
    → Option (List ℕ)
dump_binary_to_file opens filepath os files path =
    if opens then (if filepath == path then some os else files path) else files path

-- The IPv4 addresses, with the interface that has each.
abbrev pub ipv4_of : List Interface → List (String × String)
ipv4_of [] = []
ipv4_of (interface ∷ next) = elim interface.ifa_addr [
  | none ↦ ipv4_of next
  | some (Family.af_inet, address) ↦ (interface.ifa_name, address) ∷ ipv4_of next
  | some (Family.af_inet6, address) ↦ ipv4_of next
  | some (Family.af_other, address) ↦ ipv4_of next
]

-- The first one of an interface, and the last one of all.
abbrev pub first_of : String → List (String × String) → Option String
first_of name [] = none
first_of name ((owner, address) ∷ more) =
    let rest = first_of name more in if owner == name then some address else rest

abbrev pub last_or : String → List (String × String) → String
last_or default [] = default
last_or default ((owner, address) ∷ more) = last_or address more

abbrev pub chosen : Option String → String → String
chosen none default = default
chosen (some address) default = address

abbrev pub AllAddressed : List Interface → Type 0
AllAddressed [] = Unit
AllAddressed (interface ∷ next) = (interface.ifa_addr ≢ none) × AllAddressed next

abbrev IsOf : Option (Family × String) → Family → Type 0
IsOf addr family = (address : String) × (addr ≡ some (family, address))

ifa_addr_cases :
    (addr : Option (Family × String))
    → (addr ≡ none)
      ⊎ (IsOf addr Family.af_inet ⊎ (IsOf addr Family.af_inet6 ⊎ IsOf addr Family.af_other))
ifa_addr_cases none = inl refl
ifa_addr_cases (some (Family.af_inet, address)) = inr (inl (address, refl))
ifa_addr_cases (some (Family.af_inet6, address)) = inr (inr (inl (address, refl)))
ifa_addr_cases (some (Family.af_other, address)) = inr (inr (inr (address, refl)))

look_for_eth0-chosen :
    (interfaces : List Interface) (my_ip : String)
    → AllAddressed interfaces
    → look_for_eth0 interfaces my_ip
      ≡ ok (chosen (first_of "eth0" (ipv4_of interfaces)) (last_or my_ip (ipv4_of interfaces)))
unfolding look_for_eth0
look_for_eth0-chosen [] my_ip addressed = refl
look_for_eth0-chosen (interface ∷ next) my_ip addressed = elim (ifa_addr_cases interface.ifa_addr) [
  | inl e ↦ absurd (addressed.0 e)
  | inr (inl (address, e)) ↦ elim (Bool-cases (interface.ifa_name == "eth0")) [
    | inl eth0 ↦ rw (e, eth0) refl
    | inr other ↦ rw (e, other) (look_for_eth0-chosen next address addressed.1)
  ]
  | inr (inr (inl (address, e))) ↦ rw e (look_for_eth0-chosen next my_ip addressed.1)
  | inr (inr (inr (address, e))) ↦ rw e (look_for_eth0-chosen next my_ip addressed.1)
]

-- Where every interface has an address, `getMyIPAddress` returns the first IPv4 address of eth0; with
-- none there the last IPv4 address of any interface; and with no IPv4 address "Invalid.IP".
pub get_my_ip_address-chosen :
    (interfaces : List Interface)
    → AllAddressed interfaces
    → get_my_ip_address interfaces
      ≡ ok (
          chosen (first_of "eth0" (ipv4_of interfaces)) (last_or "Invalid.IP" (ipv4_of interfaces)))
unfolding get_my_ip_address
get_my_ip_address-chosen interfaces addressed =
    look_for_eth0-chosen interfaces "Invalid.IP" addressed

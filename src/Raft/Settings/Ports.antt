-- ===== src/Raft/Settings/Ports.antt =====
-- The ports of a server whose settings are read.
use draft.Base.{
  ℕ, ◌≤◌, ◌≡◌, refl, ap, subst, ◌∙◌, inl, inr, Bool, true, false, Option, none, some, Str, codes,
  arith, if◌then◌else◌, Bool-cases, skip_space, is_space,
}
use draft.Config.{ConfigParser, find}
use draft.Numbers.{stol, after_space, digits, more_digits}
use draft.Raft.Configure.{default_rpc_port}
use draft.Raft.Settings.{
  Settings, Read, value, conf_error, thrown, and_then, stoi, in_port_range, port_setting,
  read_settings, default_http_port,
}

-- The text gives a number from 1024 to 65535.
abbrev pub IsPort : Str → Type 0
IsPort s = (n : ℕ) × (stoi s ≡ value (false, n)) × (1024 ≤ n) × (n ≤ 65535)

abbrev pub Comes {ℓ κ} : {A : Type ℓ} {B : Type κ} → Read A → (A → Read B) → B → Type (ℓ ⊔ κ)
Comes {A = A} m f b = (a : A) × (m ≡ value a) × (f a ≡ value b)

and_then-value {ℓ κ} :
    {A : Type ℓ} {B : Type κ} (m : Read A) (f : A → Read B) (b : B)
    → and_then m f ≡ value b
    → Comes m f b
unfolding and_then
and_then-value (value a) f b e = (a, refl, e)
and_then-value conf_error f b e = cc
and_then-value thrown f b e = cc

in_port_range-le :
    (i : Bool × ℕ) → in_port_range i ≡ true → (i.0 ≡ false) × (1024 ≤ i.1) × (i.1 ≤ 65535)
in_port_range-le (true, n) h = cc
in_port_range-le (false, n) h = (refl, ground arith, ground arith)

kept-IsPort :
    (s p : Str) (negative : Bool) (n : ℕ)
    → stoi s ≡ value (negative, n)
    → (if in_port_range (negative, n) then value s else conf_error) ≡ value p
    → IsPort p
kept-IsPort s p negative n q e = elim (Bool-cases (in_port_range (negative, n))) [
  | inr f ↦ (let never : conf_error ≡ value p = rw f at e in cc)
  | inl t ↦
      let there : value s ≡ value p = rw t at e in
      let same : s ≡ p = cc in
      let (pos, low, high) = in_port_range-le (negative, n) t in
      subst IsPort same (n, q ∙ ap (λ b. value (b, n)) pos, low, high)
]

port_setting-IsPort :
    (o : Option Str) (d p : Str) → IsPort d → port_setting o d ≡ value p → IsPort p
unfolding port_setting
port_setting-IsPort none d p h e = (let same : d ≡ p = cc in subst IsPort same h)
port_setting-IsPort (some s) d p h e =
    let ((negative, n), q, r) = and_then-value (stoi s) _ p e in kept-IsPort s p negative n q r

default_rpc_port-IsPort : IsPort default_rpc_port
unfolding stoi stol after_space digits more_digits skip_space is_space
default_rpc_port-IsPort = (2023, refl, omega arith, omega arith)

default_http_port-IsPort : IsPort default_http_port
unfolding stoi stol after_space digits more_digits skip_space is_space
default_http_port-IsPort = (2026, refl, omega arith, omega arith)

-- What holds of the value, if there is one.
abbrev pub Every {ℓ κ} : {A : Type ℓ} → (A → Type κ) → Read A → Type κ
Every P (value a) = P a
Every P _ = Unit

Every-and_then {ℓ κ μ} :
    {A : Type ℓ} {B : Type κ} (P : B → Type μ) (m : Read A) (f : A → Read B)
    → ((a : A) → m ≡ value a → Every P (f a))
    → Every P (and_then m f)
unfolding and_then
Every-and_then P (value a) f h = h a refl
Every-and_then P conf_error f h = tt
Every-and_then P thrown f h = tt

abbrev HasPorts : Settings → Type 0
HasPorts s = IsPort s.rpc_port × IsPort s.http_port

settings-HasPorts : (before : Bool) (c : ConfigParser) → Every HasPorts (read_settings before c)
unfolding read_settings
settings-HasPorts before c = Every-and_then HasPorts _ _ λ path _.
    Every-and_then HasPorts _ _ λ vote_file _. Every-and_then HasPorts _ _ λ stat_file _.
      Every-and_then HasPorts _ _ λ ldbs_file _. Every-and_then HasPorts _ _ λ n1 _.
        Every-and_then HasPorts _ _ λ n2 _. Every-and_then HasPorts _ _ λ n3 _.
          Every-and_then HasPorts _ _ λ n4 _. Every-and_then HasPorts _ _ λ n5 _.
            Every-and_then HasPorts _ _ λ n6 _. Every-and_then HasPorts _ _ λ n7 _.
              Every-and_then HasPorts _ _ λ n8 _. Every-and_then HasPorts _ _ λ rpc q.
                Every-and_then HasPorts _ _ λ http r. (
                  port_setting-IsPort (find (codes "rpc_port") c) default_rpc_port rpc
                      default_rpc_port-IsPort q,
                  port_setting-IsPort (find (codes "http_port") c) default_http_port http
                      default_http_port-IsPort r,
                )

-- If the settings are read without an error, `std::stoi` reads a number from 1024 to 65535 in the port of
-- the calls and in the port of the HTTP server, whether the file gives them or not.
pub read_settings-IsPort :
    (before : Bool) (c : ConfigParser) (s : Settings)
    → read_settings before c ≡ value s
    → IsPort s.rpc_port × IsPort s.http_port
read_settings-IsPort before c s e = subst (Every HasPorts) e (settings-HasPorts before c)

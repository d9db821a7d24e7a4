-- ===== src/IntranetNets.antt =====
-- `src/intranet_nets.rs`: which addresses are of the intranet. The crate `ipnet` is a parameter.
use wp_knowledge.Base.{
  ℕ, ◌+◌, ◌/◌, ◌%◌, ◌^◌, Bool, true, false, ◌==◌, ◌||◌, if◌then◌else◌, List, [], ◌∷◌, ◌++◌, Option,
  none, some, Bytes, length,
}
use wp_knowledge.Base.Text.{codes, trim}
pub mod Listed

pub data IntranetMergeMode : Type 0 where
  add replace : IntranetMergeMode

pub record IntranetNetsConf : Type 0 where
  pub enabled : Bool
  pub mode : IntranetMergeMode
  pub nets : List Bytes

-- An address is its number, of 32 or of 128 bits.
pub data IpAddr : Type 0 where
  v4 : ℕ → IpAddr
  v6 : ℕ → IpAddr

pub data IpNet (V4 V6 : Type 0) : Type 0 where
  v4 : V4 → IpNet V4 V6
  v6 : V6 → IpNet V4 V6

-- The crate's types `Ipv4Net` and `Ipv6Net`, and its functions of these names.
pub record Ipnet (V4 V6 : Type 0) : Type 0 where
  pub from_str : Bytes → Option (IpNet V4 V6)
  pub contains_v4 : V4 → ℕ → Bool
  pub contains_v6 : V6 → ℕ → Bool

unfoldable pub default_intranet_nets : List Bytes
default_intranet_nets =
    codes "10.0.0.0/8"
    ∷ codes "172.16.0.0/12"
    ∷ codes "192.168.0.0/16"
    ∷ codes "127.0.0.0/8"
    ∷ codes "::1/128"
    ∷ codes "fc00::/7"
    ∷ []

unfoldable pub any : {A : Type 0} → (A → Bool) → List A → Bool
any p [] = false
any p (x ∷ xs) = p x || any p xs

-- `Ipv6Addr::to_ipv4_mapped`, for an address `::ffff:a.b.c.d`.
unfoldable pub to_ipv4_mapped : ℕ → Option ℕ
to_ipv4_mapped a = if a / 2 ^ 32 == 0xFFFF then some (a % 2 ^ 32) else none

unfoldable pub unmapped : IpAddr → IpAddr
unfolding to_ipv4_mapped
unmapped (IpAddr.v4 a) = IpAddr.v4 a
unmapped (IpAddr.v6 a) = elim (to_ipv4_mapped a) [ none ↦ IpAddr.v6 a | some b ↦ IpAddr.v4 b ]

pub record IntranetNetsSet (V4 V6 : Type 0) : Type 0 where
  pub v4_nets : List V4
  pub v6_nets : List V6

-- The configuration that has been injected, and the set once it has been loaded.
pub record Globals (V4 V6 : Type 0) : Type 0 where
  pub conf : Option IntranetNetsConf
  pub set : Option (IntranetNetsSet V4 V6)

-- What the message of `init_intranet_nets` says: whether a configuration is in effect, and how many
-- networks there are.
pub record Loaded : Type 0 where
  pub external : Bool
  pub count : ℕ

module _ {V4 V6 : Type 0} where
  unfoldable pub split_nets : List (IpNet V4 V6) → IntranetNetsSet V4 V6
  split_nets [] = record { v4_nets = []; v6_nets = [] }
  split_nets (IpNet.v4 x ∷ nets) =
      let rest = split_nets nets in record rest { v4_nets = x ∷ rest.v4_nets }
  split_nets (IpNet.v6 x ∷ nets) =
      let rest = split_nets nets in record rest { v6_nets = x ∷ rest.v6_nets }

  -- A name that is not one of a network is passed over.
  unfoldable pub filter_map : (Bytes → Option (IpNet V4 V6)) → List Bytes → List (IpNet V4 V6)
  filter_map f [] = []
  filter_map f (s ∷ names) =
      let rest = filter_map f names in elim (f s) [ none ↦ rest | some net ↦ net ∷ rest ]

  unfoldable pub net_count : IntranetNetsSet V4 V6 → ℕ
  net_count set = length set.v4_nets + length set.v6_nets

  unfoldable pub set_intranet_nets_conf : Option IntranetNetsConf → Globals V4 V6 → Globals V4 V6
  set_intranet_nets_conf conf g = record g { conf = conf }

  module _ (ipnet : Ipnet V4 V6) where
    unfoldable pub builtin : IntranetNetsSet V4 V6
    unfolding split_nets filter_map default_intranet_nets
    builtin = split_nets (filter_map ipnet.from_str default_intranet_nets)

    unfoldable pub merge : IntranetNetsSet V4 V6 → IntranetNetsConf → IntranetNetsSet V4 V6
    unfolding split_nets filter_map trim
    merge set conf =
        let new = split_nets (filter_map (λ c. ipnet.from_str (trim c)) conf.nets) in
        elim conf.mode [
          | IntranetMergeMode.add ↦ record {
            v4_nets = set.v4_nets ++ new.v4_nets;
            v6_nets = set.v6_nets ++ new.v6_nets;
          }
          | IntranetMergeMode.replace ↦ new
        ]

    unfoldable pub contains : IntranetNetsSet V4 V6 → IpAddr → Bool
    unfolding any
    contains set (IpAddr.v4 a) = any (λ n. ipnet.contains_v4 n a) set.v4_nets
    contains set (IpAddr.v6 a) = any (λ n. ipnet.contains_v6 n a) set.v6_nets

    -- The initialiser of `INTRANET_NETS_SET`.
    unfoldable pub loaded : Option IntranetNetsConf → IntranetNetsSet V4 V6
    unfolding builtin merge
    loaded none = builtin
    loaded (some conf) = if conf.enabled then merge builtin conf else builtin

    -- The first use of `INTRANET_NETS_SET` runs the initialiser.
    unfoldable pub force : Globals V4 V6 → Globals V4 V6 × IntranetNetsSet V4 V6
    unfolding loaded
    force g = elim g.set [
      | some set ↦ (g, set)
      | none ↦ (record g { set = some (loaded g.conf) }, loaded g.conf)
    ]

    unfoldable pub is_intranet : IpAddr → Globals V4 V6 → Globals V4 V6 × Bool
    unfolding unmapped force contains
    is_intranet ip g = let (g', set) = force g in (g', contains set (unmapped ip))

    unfoldable pub init_intranet_nets : Globals V4 V6 → Globals V4 V6 × Loaded
    unfolding force net_count
    init_intranet_nets g =
        let (g', set) = force g in
        (
          g',
          record {
            external = elim g'.conf [ none ↦ false | some conf ↦ true ];
            count = net_count set;
          },
        )

-- What the check of a project says of the section that has been read: how many networks, and the mode.
unfoldable pub check_intranet_nets_config : Option IntranetNetsConf → Option (ℕ × IntranetMergeMode)
check_intranet_nets_config none = none
check_intranet_nets_config (some conf) =
    if conf.enabled then some (length conf.nets, conf.mode) else none

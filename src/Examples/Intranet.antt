-- ===== src/Examples/Intranet.antt =====
-- The theorems on `src/intranet_nets.rs` at concrete inputs.
use wp_knowledge.Base.{
  ℕ, ◌/◌, ◌^◌, ◌≡◌, refl, Bool, true, false, ◌==◌, [], ◌∷◌, none, some, ℕ_discrete,
}
use wp_knowledge.Base.Model.{Bytes-discrete}
use wp_knowledge.Base.Text.{codes}
use wp_knowledge.IntranetNets.{
  IntranetMergeMode, IntranetNetsConf, IpAddr, IpNet, Ipnet, Globals, unmapped, is_intranet,
}
use wp_knowledge.IntranetNets.Listed.{Step, run, is_meant, is_intranet-run}

-- It knows two networks by their names; a network is its first octet.
abbrev two_nets : Ipnet ℕ ℕ
two_nets = record {
  from_str = λ s. elim (Bytes-discrete s (codes "10.0.0.0/8")) [
    | yes same ↦ some (IpNet.v4 10)
    | no other ↦ elim (Bytes-discrete s (codes "11.0.0.0/8")) [
      | yes same ↦ some (IpNet.v4 11)
      | no other' ↦ none
    ]
  ];
  contains_v4 = λ n a. a / 2 ^ 24 == n;
  contains_v6 = λ n a. false;
}

abbrev conf : Bool → IntranetNetsConf
conf enabled = record {
  enabled = enabled;
  mode = IntranetMergeMode.replace;
  nets = codes " 11.0.0.0/8" ∷ codes "11" ∷ [];
}

abbrev injected : Bool → Globals ℕ ℕ
injected enabled = record { conf = some (conf enabled); set = none }

-- `::ffff:11.0.0.1`, after the configuration has been taken away again.
is_intranet-run_example :
    (is_intranet two_nets (IpAddr.v6 281470866292737) (
      run two_nets
        (Step.inject none ∷ Step.start ∷ [])
        (is_intranet two_nets (IpAddr.v4 7) (injected true)).0)).1
    ≡ true
unfolding is_meant Bytes-discrete ℕ_discrete unmapped
is_intranet-run_example =
    is_intranet-run two_nets (IpAddr.v4 7) (IpAddr.v6 281470866292737)
      (Step.inject none ∷ Step.start ∷ []) (injected true) refl

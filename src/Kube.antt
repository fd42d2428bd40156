-- ===== src/Kube.antt =====
-- The Kubernetes API values that the program reads, and the code outside the repository that it
-- calls on them: the matching of label selectors, the parsers of prefixes and addresses, and a hash.
pub mod Objects
use cnidaria_cni.Base.{String, Bool, List, Result}
use cnidaria_cni.Netip.Addr.{Addr}
use cnidaria_cni.Netip.Prefix.{Prefix}

abbrev pub Labels : Type 0
Labels = List (String × String)

pub record Requirement : Type 0 where
  pub key : String
  pub operator : String
  pub values : List String

-- `metav1.LabelSelector`, handed on and never looked into.
pub record LabelSelector : Type 0 where
  pub match_labels : Labels
  pub match_expressions : List Requirement

-- `networkingv1.IPBlock`
pub record IpBlock : Type 0 where
  pub cidr : String
  pub except : List String

pub record External : Type 0 where
  -- `metav1.LabelSelectorAsSelector` with `Selector.Matches`.
  pub label_selector : LabelSelector → Result String (Labels → Bool)
  -- `netip.ParsePrefix`.
  pub parse_prefix : String → Result String Prefix
  -- `netip.ParseAddr`.
  pub parse_addr : String → Result String Addr
  -- `hex.EncodeToString` of `sha256.Sum256`.
  pub sha256_hex : String → String

-- ===== src/Nftables/Ruleset.antt =====
-- internal/nftables/ruleset.go and model.go: the table, its text, and the accessors.
pub mod Comments
pub mod Finding
pub mod Inserting
use Prim.Native.String.{len, slice}
use cnidaria_cni.Base.{
  ℕ, ◌-◌, String, ◌<>◌, Option, none, some, List, [], ◌∷◌, ◌++◌, map, if◌then◌else◌, leb, ◌==◌,
  string_eq, join, quote, find_first,
}

abbrev pub table_family : String
table_family = "inet"

abbrev pub table_name : String
table_name = "cnidaria"

pub record Set : Type 0 where
  pub name : String
  pub type : String
  pub flags : List String
  pub elements : List String
  pub comment : String

pub record BaseChain : Type 0 where
  pub type : String
  pub hook : String
  pub priority : String
  pub policy : String

pub record Rule : Type 0 where
  pub match : String
  pub verdict : String
  pub comment : String

pub record Chain : Type 0 where
  pub name : String
  pub base : Option BaseChain
  pub rules : List Rule
  pub comment : String

pub record Ruleset : Type 0 where
  pub sets : List Set
  pub chains : List Chain

abbrev pub comment_max_len : ℕ
comment_max_len = 128

abbrev pub ellipsis : String
ellipsis = "..."

-- `clipComment`; lengths and positions are bytes.
unfoldable pub clip_comment : String → String
clip_comment comment =
    if leb (len comment) comment_max_len
    then comment
    else slice comment 0 (comment_max_len - len ellipsis) <> ellipsis

-- `Rule.String`
unfoldable pub rule_text : Rule → String
unfolding clip_comment join quote
rule_text r =
    let matched = if r.match == "" then [] else r.match ∷ [] in
    let said =
      if r.comment == "" then [] else ("comment " <> quote (clip_comment r.comment)) ∷ [] in
    join (matched ++ ("counter" ∷ r.verdict ∷ said)) " "

abbrev comment_line : String → String
comment_line comment = if comment == "" then "" else "\t# " <> (comment <> "\n")

flags_line : List String → String
unfolding join
flags_line [] = ""
flags_line (f ∷ fs) = "\t\tflags " <> (join (f ∷ fs) "," <> "\n")

elements_line : List String → String
unfolding join
elements_line [] = ""
elements_line (e ∷ es) = "\t\telements = { " <> (join (e ∷ es) ", " <> " }\n")

-- `Set.String`
unfoldable pub set_text : Set → String
unfolding flags_line elements_line
set_text s =
    comment_line s.comment
    <> ("\tset "
        <> (s.name
            <> (" {\n\t\ttype "
                <> (s.type
                    <> ("\n" <> (flags_line s.flags <> (elements_line s.elements <> "\t}\n")))))))

base_line : Option BaseChain → String
base_line none = ""
base_line (some b) =
    "\t\ttype "
    <> (b.type
        <> (" hook "
            <> (b.hook <> (" priority " <> (b.priority <> ("; policy " <> (b.policy <> ";\n")))))))

rule_lines : List Rule → String
unfolding rule_text
rule_lines [] = ""
rule_lines (r ∷ rs) = "\t\t" <> (rule_text r <> ("\n" <> rule_lines rs))

-- `Chain.String`
unfoldable pub chain_text : Chain → String
unfolding base_line rule_lines
chain_text c =
    comment_line c.comment
    <> ("\tchain " <> (c.name <> (" {\n" <> (base_line c.base <> (rule_lines c.rules <> "\t}\n")))))

abbrev pub ruleset_header : List String
ruleset_header =
    "# cnidaria's nftables table. Generated on every apply; edits here do not survive one." ∷ "#"
    ∷ "# cnidaria owns this one table and nothing else in the ruleset, so the ruleset is never"
    ∷ "# flushed and no rule anybody else installed, kube-proxy's included, is touched"
    ∷ "# (ADR 0003). The two statements below add the table if it is not already there and"
    ∷ "# then remove it, so that the one that follows goes in whether or not a previous apply"
    ∷ "# left anything behind. nft runs the whole file as a single transaction, so the table"
    ∷ "# is never half replaced." ∷ "" ∷ "" ∷ []

-- `Ruleset.String`
unfoldable pub ruleset_text : Ruleset → String
unfolding set_text chain_text join
ruleset_text r =
    let table = "table " <> (table_family <> (" " <> table_name)) in
    join ruleset_header "\n"
    <> (table
        <> ("\ndelete "
            <> (table
                <> ("\n\n"
                    <> (table
                        <> (" {\n"
                            <> (join (map set_text r.sets ++ map chain_text r.chains) "\n"
                                <> "}\n")))))))

-- `Ruleset.Set` and `Ruleset.Chain`: the first of that name, if any.
unfoldable pub set_named : String → List Set → Option Set
unfolding find_first
set_named name sets = find_first (λ s. s.name == name) sets

unfoldable pub chain_named : String → List Chain → Option Chain
unfolding find_first
chain_named name chains = find_first (λ c. c.name == name) chains

-- A write through the pointer that `Set` or `Chain` returned.
unfoldable pub write_set : String → (Set → Set) → List Set → List Set
write_set name f [] = []
write_set name f (s ∷ rest) =
    let later = s ∷ write_set name f rest in if s.name == name then f s ∷ rest else later

unfoldable pub write_chain : String → (Chain → Chain) → List Chain → List Chain
write_chain name f [] = []
write_chain name f (c ∷ rest) =
    let later = c ∷ write_chain name f rest in if c.name == name then f c ∷ rest else later

-- `kept = append(head, rules...); append(kept, last)` on a list that is not empty.
unfoldable pub before_last : Rule → List Rule → List Rule → List Rule
before_last r [] rules = rules ++ (r ∷ [])
before_last r (next ∷ rest) rules = r ∷ before_last next rest rules

-- `Chain.InsertBeforeLast`, on the chain's rules.
unfoldable pub insert_before_last : List Rule → List Rule → List Rule
unfolding before_last
insert_before_last rules [] = rules
insert_before_last [] (r ∷ rest) = r ∷ rest
insert_before_last (j ∷ js) (r ∷ rest) = before_last r rest (j ∷ js)

-- ===== src/Storage/Persisted/Samples/Texts.antt =====
-- The sample texts of strings and resources, and how they are read.
use ganglion.Prelude.{ℕ, zero, suc, Option, none, some, [], ◌∷◌, ◌≡◌, refl}
use ganglion.Core.Model.{Str, ResourceIdentity}

abbrev pub pack : Str → Str → Str
pack [] rest = 0 ∷ rest
pack (c ∷ s) rest = suc c ∷ pack s rest

abbrev pub and_parse : {A B : Type 0} → Option (A × Str) → (A → Str → Option B) → Option B
and_parse none next = none
and_parse (some (a, rest)) next = next a rest

abbrev pub unpack : Str → Option (Str × Str)
unpack [] = none
unpack (zero ∷ rest) = some ([], rest)
unpack (suc c ∷ text) = and_parse (unpack text) (λ s rest. some (c ∷ s, rest))

pub unpack-pack : (s rest : Str) → unpack (pack s rest) ≡ some (s, rest)
unpack-pack [] rest = refl
unpack-pack (c ∷ s) rest = rw (unpack-pack s rest) refl

abbrev pub number : Str → Option (ℕ × Str)
number [] = none
number (n ∷ rest) = some (n, rest)

abbrev pub group_text : Option Str → Str → Str
group_text none rest = 0 ∷ rest
group_text (some group) rest = 1 ∷ pack group rest

abbrev pub parse_group : Str → Option (Option Str × Str)
parse_group [] = none
parse_group (zero ∷ rest) = some (none, rest)
parse_group (suc _ ∷ text) = and_parse (unpack text) (λ group rest. some (some group, rest))

parse_group-group_text :
    (group : Option Str) (rest : Str) → parse_group (group_text group rest) ≡ some (group, rest)
parse_group-group_text none rest = refl
parse_group-group_text (some group) rest = rw (unpack-pack group rest) refl

abbrev pub key_text : ResourceIdentity → Str → Str
key_text r rest = r.partition ∷ pack r.namespace (pack r.name (group_text r.group rest))

abbrev pub parse_key : Str → Option (ResourceIdentity × Str)
parse_key text = and_parse (number text) (λ partition text.
    and_parse (unpack text) (λ namespace text. and_parse (unpack text) (λ name text.
      and_parse (parse_group text) (λ group rest. some (
        record { namespace = namespace; name = name; partition = partition; group = group },
        rest,
      )))))

pub parse_key-key_text :
    (r : ResourceIdentity) (rest : Str) → parse_key (key_text r rest) ≡ some (r, rest)
parse_key-key_text r rest =
    rw
      (
        unpack-pack r.namespace (pack r.name (group_text r.group rest)),
        unpack-pack r.name (group_text r.group rest),
        parse_group-group_text r.group rest,
      )
      refl

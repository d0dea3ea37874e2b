-- ===== src/Tests/Codec.antt =====
-- A way to write a list of texts as one text, for the assumption about JSON.
use Prim.Native.Char.{code}
use nexus_gate.Prelude.{
  ◌≡◌, refl, String, Option, none, some, List, [], ◌∷◌, arith, eqb, if◌then◌else◌,
}
use nexus_gate.Sql.{map_some}
use nexus_gate.Keys.{Json}

write : String → String → String
write String.[] rest = String.◌∷◌ "," rest
write (String.◌∷◌ c s) rest = String.◌∷◌ "." (String.◌∷◌ c (write s rest))

unfoldable pub dumps : List String → String
unfolding write
dumps [] = ""
dumps (x ∷ xs) = write x (dumps xs)

push : (String → String) → Option (List String) → Option (List String)
push f none = none
push f (some []) = none
push f (some (x ∷ xs)) = some (f x ∷ xs)

unfoldable pub loads : String → Option (List String)
unfolding push
loads String.[] = some []
loads (String.◌∷◌ c String.[]) = some ("" ∷ [])
loads (String.◌∷◌ c (String.◌∷◌ d s)) =
    let item = map_some (◌∷◌ "") (loads (String.◌∷◌ d s)) in
    let more = push (String.◌∷◌ d) (loads s) in if eqb (code c) b',' then item else more

loads-write :
    (x rest : String) (xs : List String)
    → loads rest ≡ some xs
    → loads (write x rest) ≡ some (x ∷ xs)
unfolding loads write push
loads-write String.[] String.[] xs h = ground arith
loads-write String.[] (String.◌∷◌ d s) xs h = rw h
loads-write (String.◌∷◌ c s) rest xs h = rw (loads-write s rest xs h)

pub loads-dumps : (xs : List String) → loads (dumps xs) ≡ some xs
unfolding dumps loads
loads-dumps [] = refl
loads-dumps (x ∷ xs) = loads-write x (dumps xs) xs (loads-dumps xs)

abbrev pub codec : Json
codec = record { dumps = dumps; loads = loads; loads-dumps = loads-dumps }

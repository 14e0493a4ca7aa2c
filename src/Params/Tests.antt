-- ===== src/Params/Tests.antt =====
-- internal/core/queryir/native.go: SQL with parameters on concrete texts.
use topbase.Prelude.{◌≡◌, refl, Bool, true, false, if◌then◌else◌, [], ◌∷◌, none, some, ok}
use topbase.Text.{Text, codes, text_eq, lookup}
use topbase.QueryIr.Values.{ℤ, str}
use topbase.Params.Dates.{parse_date_value}
use topbase.QueryIr.{Parameter}
use topbase.Params.Native.{Assignment, apply_native, by_name}
use topbase.Params.Native.Opaque.{AreAlike, reads_date, text_of, apply_native_opaque}

abbrev no_days : ℤ → Text
no_days n = []

abbrev by_city : Text
by_city = codes "SELECT * FROM t WHERE city = {{city}} [[AND kind = {{kind}}]]"

abbrev oslo : Assignment
oslo = (codes "city", str (codes "Oslo")) ∷ []

abbrev quoted : Assignment
quoted = (codes "city", str (codes "x' OR 1=1")) ∷ []

oslo_sql :
    apply_native no_days by_city [] oslo
    ≡ ok (codes "SELECT * FROM t WHERE city = $1", str (codes "Oslo") ∷ [])
unfolding apply_native topbase.Text.trim_space topbase.Params.Native.substitute
    topbase.Params.Tokens.tokens topbase.Params.Native.without_blocks topbase.Params.Tokens.pieces
    topbase.Params.Native.hole_sql topbase.Text.text_eq topbase.Params.Native.by_name
    topbase.Params.Native.last_named topbase.Params.Native.plain_sql lookup
    topbase.Params.Native.keep_block topbase.Params.Tokens.holes topbase.Params.Native.bind
    topbase.Text.Decimal.show
oslo_sql = refl

either_city :
    (b : Bool)
    → (p : Parameter) → reads_date p ≡ false
    → AreAlike no_days p
        (if b then some (str (codes "Oslo")) else none)
        (if b then some (str (codes "x' OR 1=1")) else none)
unfolding parse_date_value topbase.Text.has_prefix topbase.Text.Parts.has_suffix
    topbase.Text.Parts.trim_prefix
either_city true p plain = record { given = refl; nils = refl; ends = λ dated. cc }
either_city false p plain = record { given = refl; nils = refl; ends = λ dated. refl }

cities_alike :
    (name : Text) → AreAlike no_days (by_name name []) (lookup name oslo) (lookup name quoted)
unfolding lookup by_name topbase.Params.Native.last_named text_eq
cities_alike name = either_city (text_eq name (codes "city")) (by_name name []) refl

apply_native_opaque_example :
    text_of (apply_native no_days by_city [] oslo)
    ≡ text_of (apply_native no_days by_city [] quoted)
apply_native_opaque_example = apply_native_opaque no_days by_city [] oslo quoted cities_alike

-- ===== src/Engine/Xa/Statements.antt =====
-- The statements of the second phase name the branch, and nothing else.
use dart_odbc_fast.Prelude.{
  ℕ, suc, sym, append_assoc, ◌/◌, ◌%◌, false, ◌==◌, List, [], ◌∷◌, ◌++◌, length, drop, All, Option,
  none, some, ok, ◌≡◌, refl, ap, ◌∙◌, ==_self, arith, append-nil, if◌then◌else◌,
}
use dart_odbc_fast.Prelude.Int.{pos, negsuc, ℤ}
use dart_odbc_fast.Wire.{Bytes, ascii}
use dart_odbc_fast.Wire.Print.{print_int, decimal_digits}
use dart_odbc_fast.Error.{OdbcResult}
use dart_odbc_fast.Engine.Capabilities.{EngineId, postgres, mysql, mariadb, db2}
use dart_odbc_fast.Engine.Identifier.{split}
use dart_odbc_fast.Engine.Xid.{
  Xid, hex_encode, hex_lut, bind_option, parse_i32, encode_postgres, decode_postgres,
  encode_mysql_components, decode_mysql_components,
}
use dart_odbc_fast.Engine.Xid.Numbers.{IsDigit, decimal_digits-All, Without}
use dart_odbc_fast.Engine.Xid.RoundTrip.{XidFits, parse_i32-print_int, decode-encode}
use dart_odbc_fast.Engine.Xa.Sql.{
  mysql_xa, xa_prepare, xa_commit, xa_rollback, xa_rollback_prepared,
}

split-append : (c : ℕ) (xs ys : Bytes) → Without c xs → split c (xs ++ (c ∷ ys)) ≡ xs ∷ split c ys
unfolding split
split-append c [] ys h = rw (==_self c) refl
split-append c (x ∷ xs) ys h = rw (h.0, split-append c xs ys h.1) refl

split-Without : (c : ℕ) (xs : Bytes) → Without c xs → split c xs ≡ xs ∷ []
unfolding split
split-Without c [] h = refl
split-Without c (x ∷ xs) h = rw (h.0, split-Without c xs h.1) refl

Without-append : (c : ℕ) (xs ys : Bytes) → Without c xs → Without c ys → Without c (xs ++ ys)
Without-append c [] ys hx hy = hy
Without-append c (x ∷ xs) ys hx hy = (hx.0, Without-append c xs ys hx.1 hy)

abbrev quote : ℕ
quote = 39

hex_lut-quote : (d : ℕ) → (hex_lut b'a' d == quote) ≡ false
unfolding hex_lut
hex_lut-quote d = ground arith

hex_encode-quote : (bs : Bytes) → Without quote (hex_encode b'a' bs)
unfolding hex_encode
hex_encode-quote [] = tt
hex_encode-quote (b ∷ bs) = (hex_lut-quote (b / 16), (hex_lut-quote (b % 16), hex_encode-quote bs))

digits-quote : (ds : Bytes) → All IsDigit ds → Without quote ds
digits-quote [] h = tt
digits-quote (d ∷ ds) h = (ground (arith, h.0), digits-quote ds h.1)

print_int-quote : (z : ℤ) → Without quote (print_int z)
unfolding print_int
print_int-quote (pos n) = digits-quote (decimal_digits 19 n) (decimal_digits-All 19 n)
print_int-quote (negsuc n) =
    (refl, digits-quote (decimal_digits 19 (suc n)) (decimal_digits-All 19 (suc n)))

encode_postgres-quote : (xid : Xid) → Without quote (encode_postgres xid)
unfolding encode_postgres
encode_postgres-quote xid =
    Without-append quote (print_int xid.format_id) _ (print_int-quote xid.format_id) (
      refl,
      Without-append quote (hex_encode b'a' xid.gtrid) _ (hex_encode-quote xid.gtrid)
          (refl, hex_encode-quote xid.bqual),
    )

-- The text literals of a statement, and the branch that they name, read as each engine's grammar
-- has it.
abbrev pub mysql_branch : List Bytes → Option Xid
mysql_branch (verb ∷ g ∷ comma ∷ b ∷ format ∷ []) =
    bind_option (parse_i32 (drop 2 format)) (λ f. decode_mysql_components (g, b, f))
mysql_branch parts = none

abbrev pub postgres_branch : List Bytes → Option Xid
postgres_branch (verb ∷ id ∷ [] ∷ []) = decode_postgres id
postgres_branch parts = none

abbrev pub branch_of_parts : EngineId → List Bytes → Option Xid
branch_of_parts postgres parts = postgres_branch parts
branch_of_parts mysql parts = mysql_branch parts
branch_of_parts mariadb parts = mysql_branch parts
branch_of_parts db2 parts = mysql_branch parts
branch_of_parts engine parts = none

abbrev pub branch_of : EngineId → Bytes → Option Xid
branch_of engine sql = branch_of_parts engine (split quote sql)

postgres_reads :
    (verb : Bytes) (xid : Xid)
    → Without quote verb
    → split quote (verb ++ (quote ∷ (encode_postgres xid ++ (quote ∷ []))))
      ≡ verb ∷ encode_postgres xid ∷ [] ∷ []
postgres_reads verb xid h =
    split-append quote verb _ h
    ∙ ap (◌∷◌ verb) (
        split-append quote (encode_postgres xid) [] (encode_postgres-quote xid)
        ∙ ap (◌∷◌ (encode_postgres xid)) (split-Without quote [] tt))

-- Both texts that the source writes are one.
mysql_text :
    (verb g b rest : Bytes)
    → (if length b == 0
        then verb ++ (ascii " '" ++ (g ++ (ascii "', '', " ++ rest)))
        else verb ++ (ascii " '" ++ (g ++ (ascii "', '" ++ (b ++ (ascii "', " ++ rest))))))
      ≡ (verb ++ ascii " ")
        ++ (quote
            ∷ (g ++ (quote ∷ (ascii ", " ++ (quote ∷ (b ++ (quote ∷ (ascii ", " ++ rest))))))))
mysql_text verb g [] rest = sym (append_assoc verb (ascii " ") _)
mysql_text verb g (x ∷ xs) rest =
    let long : (length (x ∷ xs) == 0) ≡ false = ground arith in
    rw long (sym (append_assoc verb (ascii " ") _))

mysql_split :
    (verb g b rest : Bytes)
    → Without quote verb
    → Without quote g
    → Without quote b
    → Without quote rest
    → split quote
        (verb ++ (quote ∷ (g ++ (quote ∷ (ascii ", " ++ (quote ∷ (b ++ (quote ∷ rest))))))))
      ≡ verb ∷ g ∷ ascii ", " ∷ b ∷ rest ∷ []
mysql_split verb g b rest hv hg hb hr =
    split-append quote verb _ hv
    ∙ ap (◌∷◌ verb) (
        split-append quote g _ hg
        ∙ ap (◌∷◌ g) (
            split-append quote (ascii ", ") _ (refl, (refl, tt))
            ∙ ap (◌∷◌ (ascii ", "))
                (split-append quote b _ hb ∙ ap (◌∷◌ b) (split-Without quote rest hr))))

pub mysql_reads :
    (verb : Bytes) (xid : Xid)
    → Without quote verb
    → XidFits xid
    → branch_of mysql (mysql_xa verb xid []) ≡ some xid
unfolding mysql_xa encode_mysql_components
mysql_reads verb xid h fits =
    let g = hex_encode b'a' xid.gtrid in
    let b = hex_encode b'a' xid.bqual in
    let rest = print_int xid.format_id ++ [] in
    let read =
      ap (split quote) (mysql_text verb g b rest)
      ∙ mysql_split (verb ++ ascii " ") g b (ascii ", " ++ rest)
          (Without-append quote verb (ascii " ") h (refl, tt)) (hex_encode-quote xid.gtrid)
          (hex_encode-quote xid.bqual)
          (
            refl,
            (
              refl,
              Without-append quote (print_int xid.format_id) [] (print_int-quote xid.format_id) tt,
            ),
          ) in
    ap (branch_of_parts mysql) read
    ∙ rw (append-nil (print_int xid.format_id), parse_i32-print_int xid.format_id fits.format)
        (unfold encode_mysql_components in (decode-encode xid fits).1)

-- The engines whose own SQL has the two phases.
abbrev pub IsSqlXa : EngineId → Type 0
IsSqlXa postgres = Unit
IsSqlXa mysql = Unit
IsSqlXa mariadb = Unit
IsSqlXa db2 = Unit
IsSqlXa engine = ⊥

abbrev pub Names : EngineId → Xid → OdbcResult (Option Bytes) → Type 0
Names engine xid sql = (s : Bytes) × (sql ≡ ok (some s)) × (branch_of engine s ≡ some xid)

postgres_names :
    (verb : Bytes) (xid : Xid)
    → Without quote verb
    → XidFits xid
    → branch_of postgres (verb ++ (quote ∷ (encode_postgres xid ++ (quote ∷ [])))) ≡ some xid
postgres_names verb xid h fits =
    ap (branch_of_parts postgres) (postgres_reads verb xid h) ∙ (decode-encode xid fits).0

abbrev Phases : EngineId → Xid → Type 0
Phases engine xid =
    Names engine xid (xa_prepare engine xid)
    × Names engine xid (xa_commit engine xid false)
    × Names engine xid (xa_rollback_prepared engine xid)

mysql-Phases : (xid : Xid) → XidFits xid → Phases mysql xid
unfolding xa_prepare xa_commit xa_rollback_prepared xa_rollback
mysql-Phases xid fits = (
  (
    mysql_xa (ascii "XA PREPARE") xid [],
    refl,
    mysql_reads (ascii "XA PREPARE") xid (ground arith) fits,
  ),
  (
    mysql_xa (ascii "XA COMMIT") xid [],
    refl,
    mysql_reads (ascii "XA COMMIT") xid (ground arith) fits,
  ),
  (
    mysql_xa (ascii "XA ROLLBACK") xid [],
    refl,
    mysql_reads (ascii "XA ROLLBACK") xid (ground arith) fits,
  ),
)

-- On PostgreSQL, MySQL, MariaDB and DB2, for every identifier within the limits of X/Open, whatever
-- bytes it is made of: the statements that prepare a branch, that commit a prepared branch and that
-- roll one back have text literals that name exactly this branch, when a reader of the engine's
-- grammar splits the statement at its quotes and decodes them.
pub second_phase-Names :
    (engine : EngineId) (xid : Xid)
    → IsSqlXa engine
    → XidFits xid
    → Names engine xid (xa_prepare engine xid)
      × Names engine xid (xa_commit engine xid false)
      × Names engine xid (xa_rollback_prepared engine xid)
unfolding xa_prepare xa_commit xa_rollback_prepared xa_rollback
second_phase-Names postgres xid known fits = (
  (_, refl, postgres_names (ascii "PREPARE TRANSACTION ") xid (ground arith) fits),
  (_, refl, postgres_names (ascii "COMMIT PREPARED ") xid (ground arith) fits),
  (_, refl, postgres_names (ascii "ROLLBACK PREPARED ") xid (ground arith) fits),
)
second_phase-Names mysql xid known fits = mysql-Phases xid fits
second_phase-Names mariadb xid known fits = mysql-Phases xid fits
second_phase-Names db2 xid known fits = mysql-Phases xid fits
second_phase-Names _ xid known fits = absurd known

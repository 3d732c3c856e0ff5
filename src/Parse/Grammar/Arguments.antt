-- ===== src/Parse/Grammar/Arguments.antt =====
-- asimap/parse.py: what is written by the grammar of search keys, the arguments of a key read.
use asimap.Prelude.{ℕ, ◌≡◌, refl, ap, ◌∙◌, String, none, List, ◌∷◌, ◌++◌}
use asimap.SeqSet.{SeqElt}
use asimap.Search.{Search, keyword, message_set, uid, header}
use asimap.Parse.{
  Bytes, Parser, Parsed, parsed, next, lower, lower_all, match_string, expect, is_digit, is_atom,
  ◌>>=◌, pure,
}
use asimap.Parse.Strings.{text_of}
use asimap.Parse.Sets.{is_set_char}
use asimap.Parse.Keys.{
  p_lowered, p_day_of, p_size, p_keyword, p_srchkey, p_search_token, srchkey_header, srchkey_uid,
}
use asimap.Parse.Grammar.{
  decimal, AString, atom, astring_text, IsAString, set_text, Date, date_text, IsDate, PlainKey, all,
  answered, deleted, draft, flagged, new, old, recent, seen, unanswered, undeleted, unflagged,
  unseen, plain_meaning, TextKey, bcc, body_key, cc, from, subject, text_key, to, text_meaning,
  DayKey, before_key, on_key, since_key, sentbefore_key, senton_key, sentsince_key, day_meaning,
  lowered,
}
use asimap.Parse.Grammar.Tokens.{Stops, p_re-append, p_number-decimal, p_astring-text}
use asimap.Parse.Grammar.Sets.{p_msg_set-text}
use asimap.Parse.Grammar.Dates.{p_date-text}
use asimap.Parse.Grammar.Tables.{plain_word, about_word, dated_word}

-- The methods on what is written for their arguments
pub plain_read :
    (key : Parser Search) (k : PlainKey) (rest : Bytes)
    → p_srchkey key (plain_word k) rest ≡ parsed (plain_meaning k) rest
unfolding p_srchkey plain_word
plain_read key all rest = refl
plain_read key answered rest = refl
plain_read key deleted rest = refl
plain_read key draft rest = refl
plain_read key flagged rest = refl
plain_read key new rest = refl
plain_read key old rest = refl
plain_read key recent rest = refl
plain_read key seen rest = refl
plain_read key unanswered rest = refl
plain_read key undeleted rest = refl
plain_read key unflagged rest = refl
plain_read key unseen rest = refl

pub p_lowered-text :
    (a : AString) (rest : Bytes)
    → IsAString a
    → Stops is_atom rest
    → p_lowered (32 ∷ astring_text a rest) ≡ parsed (lowered a) rest
unfolding p_lowered expect match_string lower
p_lowered-text a rest h e =
    ap (λ (r : Parsed Bytes). next r (λ string. pure (text_of (lower_all string))))
      (p_astring-text a rest h e)

pub about_read :
    (key : Parser Search) (k : TextKey) (a : AString) (rest : Bytes)
    → IsAString a
    → Stops is_atom rest
    → p_srchkey key (about_word k) (32 ∷ astring_text a rest)
      ≡ parsed (text_meaning k (lowered a)) rest
unfolding p_srchkey about_word
about_read key bcc a rest h e =
    ap (λ (r : Parsed String). next r (λ s. pure (text_meaning bcc s))) (p_lowered-text a rest h e)
about_read key body_key a rest h e =
    ap (λ (r : Parsed String). next r (λ s. pure (text_meaning body_key s)))
      (p_lowered-text a rest h e)
about_read key cc a rest h e =
    ap (λ (r : Parsed String). next r (λ s. pure (text_meaning cc s))) (p_lowered-text a rest h e)
about_read key from a rest h e =
    ap (λ (r : Parsed String). next r (λ s. pure (text_meaning from s))) (p_lowered-text a rest h e)
about_read key subject a rest h e =
    ap (λ (r : Parsed String). next r (λ s. pure (text_meaning subject s)))
      (p_lowered-text a rest h e)
about_read key text_key a rest h e =
    ap (λ (r : Parsed String). next r (λ s. pure (text_meaning text_key s)))
      (p_lowered-text a rest h e)
about_read key to a rest h e =
    ap (λ (r : Parsed String). next r (λ s. pure (text_meaning to s))) (p_lowered-text a rest h e)

pub dated_read :
    (key : Parser Search) (k : DayKey) (d : Date) (rest : Bytes)
    → IsDate d
    → p_srchkey key (dated_word k) (32 ∷ date_text d rest) ≡ parsed (day_meaning k d.ordinal) rest
unfolding p_srchkey dated_word p_day_of expect match_string lower
dated_read key before_key d rest h =
    ap (λ (r : Parsed ℕ). next r (λ n. pure (day_meaning before_key n))) (p_date-text d rest h)
dated_read key on_key d rest h =
    ap (λ (r : Parsed ℕ). next r (λ n. pure (day_meaning on_key n))) (p_date-text d rest h)
dated_read key since_key d rest h =
    ap (λ (r : Parsed ℕ). next r (λ n. pure (day_meaning since_key n))) (p_date-text d rest h)
dated_read key sentbefore_key d rest h =
    ap (λ (r : Parsed ℕ). next r (λ n. pure (day_meaning sentbefore_key n))) (p_date-text d rest h)
dated_read key senton_key d rest h =
    ap (λ (r : Parsed ℕ). next r (λ n. pure (day_meaning senton_key n))) (p_date-text d rest h)
dated_read key sentsince_key d rest h =
    ap (λ (r : Parsed ℕ). next r (λ n. pure (day_meaning sentsince_key n))) (p_date-text d rest h)

pub size_read :
    (n : ℕ) (rest : Bytes) → Stops is_digit rest → p_size (32 ∷ (decimal n ++ rest)) ≡ parsed n rest
unfolding p_size expect match_string lower
size_read n rest e = p_number-decimal n rest e

pub keyword_read :
    (flag rest : Bytes)
    → IsAString (atom flag)
    → Stops is_atom rest
    → p_keyword (32 ∷ (flag ++ rest)) ≡ parsed (keyword (text_of flag)) rest
unfolding p_keyword expect match_string lower
keyword_read flag rest h e =
    ap (λ (r : Parsed Bytes). next r (λ s. pure (keyword (text_of s))))
      (p_re-append is_atom flag rest h.0 h.1 e)

pub header_read :
    (key : Parser Search) (name a : AString) (rest : Bytes)
    → IsAString name
    → IsAString a
    → Stops is_atom rest
    → p_srchkey key srchkey_header (32 ∷ astring_text name (32 ∷ astring_text a rest))
      ≡ parsed (header (lowered name) (lowered a)) rest
unfolding p_srchkey
header_read key name a rest h k e =
    ap (λ (r : Parsed String). next r (λ n. p_lowered >>= λ s. pure (header n s)))
      (p_lowered-text name (32 ∷ astring_text a rest) h refl)
    ∙ ap (λ (r : Parsed String). next r (λ s. pure (header (lowered name) s)))
        (p_lowered-text a rest k e)

pub uid_read :
    (key : Parser Search) (elt : SeqElt) (elts : List SeqElt) (rest : Bytes)
    → Stops is_set_char rest
    → p_srchkey key srchkey_uid (32 ∷ (set_text elt elts ++ rest)) ≡ parsed (uid (elt ∷ elts)) rest
unfolding p_srchkey expect match_string lower
uid_read key elt elts rest e =
    ap (λ (r : Parsed (List SeqElt)). next r (λ msg_set. pure (uid msg_set)))
      (p_msg_set-text elt elts rest e)

pub set_read :
    (key : Parser Search) (elt : SeqElt) (elts : List SeqElt) (rest : Bytes)
    → Stops is_set_char rest
    → p_search_token key none (set_text elt elts ++ rest) ≡ parsed (message_set (elt ∷ elts)) rest
unfolding p_search_token
set_read key elt elts rest e =
    ap (λ (r : Parsed (List SeqElt)). next r (λ msg_set. pure (message_set msg_set)))
      (p_msg_set-text elt elts rest e)

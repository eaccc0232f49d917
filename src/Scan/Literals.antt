-- ===== src/Scan/Literals.antt =====
-- Literals in a query that is scanned for parameter markers.
use open_gauss_connector_odb.Base.{ℕ, ◌≡◌, Bool, true, false, List, none}
use open_gauss_connector_odb.Convert.Literal.{literal_quote, cc_get_escape}
use open_gauss_connector_odb.Scan.{ScanMode, Scan, scan_loop}

-- The variables in a literal, or behind one, of the first statement of a query: what has been found, and the last
-- character.
abbrev pub around : Bool → ℕ → Bool → ℕ → ℕ → Scan
around in_literal num_p proc_return bchar ccst = record {
  bchar = bchar;
  escape = 0;
  in_literal = in_literal;
  in_ident_keyword = false;
  in_dquote_identifier = false;
  tag = none;
  in_escape = false;
  in_line_comment = false;
  del_found = false;
  comment_level = 0;
  multi = false;
  num_p = num_p;
  proc_return = proc_return;
  next_cmd = none;
  ccst = ccst;
}

module _ (m : ScanMode) (num_p : ℕ) (proc_return : Bool)
    (plain : cc_get_escape m.conforming ≡ 0) where
  inside : ℕ → ℕ → Scan
  inside = around true num_p proc_return

  behind : ℕ → ℕ → Scan
  behind = around false num_p proc_return

  -- The scan goes on behind the literal with what it had found before it.
  Passed : ℕ → ℕ → ℕ → ℕ → List ℕ → List ℕ → Type 0
  Passed before pos b st text rest =
      (b' pos' st' : ℕ) × (scan_loop m 0 before pos (inside b st) text
        ≡ scan_loop m 0 literal_quote pos' (behind b' st') rest)

-- ===== src/Cap/Trip.antt =====
-- Printing capabilities and parsing them again.
use libvzctl.Common.{
  ℕ, ◌<◌, ◌≡◌, refl, inl, inr, Bool, true, false, not, ◌&&◌, ◌||◌, none, some, List, [], ◌∷◌, arith,
  Str, All, str_eq, take, length, Bool-cases,
}
use libvzctl.OnOff.{is_delim, onoff, onoff2id}
use libvzctl.OnOff.Trip.{
  has_bit, text, token_of, IsPlain, steps, print_items-text, parse_tokens-text, split_colon-token,
  length-print_items,
}
use libvzctl.Cap.{
  cap_names, CapParam, no_caps, get_cap_mask, cap_items, build_cap_str, raise, parse_cap_token,
  parse_cap,
}

-- The bit of a name, for the steps of the loop.
abbrev bit_of : Str → ℕ
bit_of name = elim (get_cap_mask name) [ none ↦ 0 | some bit ↦ bit ]

abbrev step : CapParam → Str × Bool → CapParam
step cap (name, v) = raise cap (bit_of name) v

-- An entry of the table that is found by its name.
abbrev IsEntry : Str × ℕ → Type 0
IsEntry (name, bit) =
    IsPlain name × (get_cap_mask (take 127 name) ≡ some bit) × (get_cap_mask name ≡ some bit)

cap_names-IsEntry : All IsEntry cap_names
unfolding is_delim get_cap_mask
cap_names-IsEntry = (
  ((refl, (refl, (refl, (refl, (refl, tt))))), refl, refl),
  (
    (
      (
        refl,
        (refl, (refl, (refl, (refl, (refl, (refl, (refl, (refl, (refl, (refl, (refl, tt))))))))))),
      ),
      refl,
      refl,
    ),
    (
      (
        (
          refl,
          (
            refl,
            (
              refl,
              (
                refl,
                (
                  refl,
                  (
                    refl,
                    (refl, (refl, (refl, (refl, (refl, (refl, (refl, (refl, (refl, tt))))))))),
                  ),
                ),
              ),
            ),
          ),
        ),
        refl,
        refl,
      ),
      (
        ((refl, (refl, (refl, (refl, (refl, (refl, tt)))))), refl, refl),
        (
          ((refl, (refl, (refl, (refl, (refl, (refl, tt)))))), refl, refl),
          (
            ((refl, (refl, (refl, (refl, tt)))), refl, refl),
            (
              ((refl, (refl, (refl, (refl, (refl, (refl, tt)))))), refl, refl),
              (
                ((refl, (refl, (refl, (refl, (refl, (refl, tt)))))), refl, refl),
                (
                  ((refl, (refl, (refl, (refl, (refl, (refl, (refl, tt))))))), refl, refl),
                  (
                    (
                      (
                        refl,
                        (
                          refl,
                          (
                            refl,
                            (
                              refl,
                              (
                                refl,
                                (
                                  refl,
                                  (
                                    refl,
                                    (
                                      refl,
                                      (refl, (refl, (refl, (refl, (refl, (refl, (refl, tt))))))),
                                    ),
                                  ),
                                ),
                              ),
                            ),
                          ),
                        ),
                      ),
                      refl,
                      refl,
                    ),
                    (
                      (
                        (
                          refl,
                          (
                            refl,
                            (
                              refl,
                              (
                                refl,
                                (
                                  refl,
                                  (
                                    refl,
                                    (
                                      refl,
                                      (
                                        refl,
                                        (
                                          refl,
                                          (
                                            refl,
                                            (refl, (refl, (refl, (refl, (refl, (refl, tt)))))),
                                          ),
                                        ),
                                      ),
                                    ),
                                  ),
                                ),
                              ),
                            ),
                          ),
                        ),
                        refl,
                        refl,
                      ),
                      (
                        (
                          (
                            refl,
                            (
                              refl,
                              (
                                refl,
                                (
                                  refl,
                                  (
                                    refl,
                                    (
                                      refl,
                                      (refl, (refl, (refl, (refl, (refl, (refl, (refl, tt))))))),
                                    ),
                                  ),
                                ),
                              ),
                            ),
                          ),
                          refl,
                          refl,
                        ),
                        (
                          (
                            (
                              refl,
                              (refl, (refl, (refl, (refl, (refl, (refl, (refl, (refl, tt)))))))),
                            ),
                            refl,
                            refl,
                          ),
                          (
                            (
                              (refl, (refl, (refl, (refl, (refl, (refl, (refl, tt))))))),
                              refl,
                              refl,
                            ),
                            (
                              (
                                (refl, (refl, (refl, (refl, (refl, (refl, (refl, (refl, tt)))))))),
                                refl,
                                refl,
                              ),
                              (
                                (
                                  (
                                    refl,
                                    (
                                      refl,
                                      (refl, (refl, (refl, (refl, (refl, (refl, (refl, tt))))))),
                                    ),
                                  ),
                                  refl,
                                  refl,
                                ),
                                (
                                  (
                                    (
                                      refl,
                                      (
                                        refl,
                                        (
                                          refl,
                                          (
                                            refl,
                                            (refl, (refl, (refl, (refl, (refl, (refl, tt)))))),
                                          ),
                                        ),
                                      ),
                                    ),
                                    refl,
                                    refl,
                                  ),
                                  (
                                    (
                                      (
                                        refl,
                                        (
                                          refl,
                                          (
                                            refl,
                                            (refl, (refl, (refl, (refl, (refl, (refl, tt)))))),
                                          ),
                                        ),
                                      ),
                                      refl,
                                      refl,
                                    ),
                                    (
                                      (
                                        (
                                          refl,
                                          (
                                            refl,
                                            (
                                              refl,
                                              (
                                                refl,
                                                (refl, (refl, (refl, (refl, (refl, (refl, tt)))))),
                                              ),
                                            ),
                                          ),
                                        ),
                                        refl,
                                        refl,
                                      ),
                                      (
                                        (
                                          (
                                            refl,
                                            (
                                              refl,
                                              (
                                                refl,
                                                (
                                                  refl,
                                                  (
                                                    refl,
                                                    (refl, (refl, (refl, (refl, (refl, tt))))),
                                                  ),
                                                ),
                                              ),
                                            ),
                                          ),
                                          refl,
                                          refl,
                                        ),
                                        (
                                          (
                                            (
                                              refl,
                                              (
                                                refl,
                                                (
                                                  refl,
                                                  (
                                                    refl,
                                                    (refl, (refl, (refl, (refl, (refl, tt))))),
                                                  ),
                                                ),
                                              ),
                                            ),
                                            refl,
                                            refl,
                                          ),
                                          (
                                            (
                                              (
                                                refl,
                                                (
                                                  refl,
                                                  (
                                                    refl,
                                                    (
                                                      refl,
                                                      (refl, (refl, (refl, (refl, (refl, tt))))),
                                                    ),
                                                  ),
                                                ),
                                              ),
                                              refl,
                                              refl,
                                            ),
                                            (
                                              (
                                                (
                                                  refl,
                                                  (
                                                    refl,
                                                    (
                                                      refl,
                                                      (refl, (refl, (refl, (refl, (refl, tt))))),
                                                    ),
                                                  ),
                                                ),
                                                refl,
                                                refl,
                                              ),
                                              (
                                                (
                                                  (
                                                    refl,
                                                    (
                                                      refl,
                                                      (
                                                        refl,
                                                        (refl, (refl, (refl, (refl, (refl, tt))))),
                                                      ),
                                                    ),
                                                  ),
                                                  refl,
                                                  refl,
                                                ),
                                                (
                                                  (
                                                    (
                                                      refl,
                                                      (
                                                        refl,
                                                        (
                                                          refl,
                                                          (
                                                            refl,
                                                            (
                                                            refl,
                                                            (
                                                            refl,
                                                            (
                                                            refl,
                                                            (
                                                            refl,
                                                            (refl, (refl, (refl, (refl, tt)))),
                                                            ),
                                                            ),
                                                            ),
                                                            ),
                                                          ),
                                                        ),
                                                      ),
                                                    ),
                                                    refl,
                                                    refl,
                                                  ),
                                                  (
                                                    (
                                                      (
                                                        refl,
                                                        (
                                                          refl,
                                                          (
                                                            refl,
                                                            (
                                                            refl,
                                                            (refl, (refl, (refl, (refl, tt)))),
                                                            ),
                                                          ),
                                                        ),
                                                      ),
                                                      refl,
                                                      refl,
                                                    ),
                                                    (
                                                      (
                                                        (
                                                          refl,
                                                          (
                                                            refl,
                                                            (
                                                            refl,
                                                            (
                                                            refl,
                                                            (
                                                            refl,
                                                            (
                                                            refl,
                                                            (
                                                            refl,
                                                            (
                                                            refl,
                                                            (
                                                            refl,
                                                            (
                                                            refl,
                                                            (refl, (refl, (refl, (refl, tt)))),
                                                            ),
                                                            ),
                                                            ),
                                                            ),
                                                            ),
                                                            ),
                                                            ),
                                                            ),
                                                          ),
                                                        ),
                                                        refl,
                                                        refl,
                                                      ),
                                                      (
                                                        (
                                                          (
                                                            refl,
                                                            (refl, (refl, (refl, (refl, tt)))),
                                                          ),
                                                          refl,
                                                          refl,
                                                        ),
                                                        (
                                                          (
                                                            (
                                                            refl,
                                                            (refl, (refl, (refl, (refl, tt)))),
                                                            ),
                                                            refl,
                                                            refl,
                                                          ),
                                                          (
                                                            (
                                                            (
                                                            refl,
                                                            (
                                                            refl,
                                                            (
                                                            refl,
                                                            (
                                                            refl,
                                                            (
                                                            refl,
                                                            (
                                                            refl,
                                                            (
                                                            refl,
                                                            (refl, (refl, (refl, (refl, tt)))),
                                                            ),
                                                            ),
                                                            ),
                                                            ),
                                                            ),
                                                            ),
                                                            ),
                                                            refl,
                                                            refl,
                                                            ),
                                                            (
                                                            (
                                                            (
                                                            refl,
                                                            (
                                                            refl,
                                                            (
                                                            refl,
                                                            (
                                                            refl,
                                                            (refl, (refl, (refl, (refl, tt)))),
                                                            ),
                                                            ),
                                                            ),
                                                            ),
                                                            refl,
                                                            refl,
                                                            ),
                                                            (
                                                            (
                                                            (
                                                            refl,
                                                            (
                                                            refl,
                                                            (
                                                            refl,
                                                            (refl, (refl, (refl, (refl, tt)))),
                                                            ),
                                                            ),
                                                            ),
                                                            refl,
                                                            refl,
                                                            ),
                                                            tt,
                                                            ),
                                                            ),
                                                          ),
                                                        ),
                                                      ),
                                                    ),
                                                  ),
                                                ),
                                              ),
                                            ),
                                          ),
                                        ),
                                      ),
                                    ),
                                  ),
                                ),
                              ),
                            ),
                          ),
                        ),
                      ),
                    ),
                  ),
                ),
              ),
            ),
          ),
        ),
      ),
    ),
  ),
)

onoff2id-onoff : (v : Bool) → onoff2id (onoff v) ≡ some v
unfolding onoff2id str_eq
onoff2id-onoff true = refl
onoff2id-onoff false = refl

parse_cap_token-token :
    (cap : CapParam) (name : Str) (bit : ℕ) (v : Bool)
    → IsEntry (name, bit)
    → parse_cap_token cap (token_of (name, v)) ≡ (0, step cap (name, v))
unfolding parse_cap_token
parse_cap_token-token cap name bit v (_, e, d) =
    rw (split_colon-token name v, parse_cap_token)
      (rw (onoff2id-onoff v) (rw e (rw (d, bit_of) refl)))

accepted :
    (new : CapParam) (t : List (Str × ℕ))
    → All IsEntry t
    → All (λ x. IsPlain x.0) (cap_items new t)
      × All (λ x. (g : CapParam) → parse_cap_token g (token_of x) ≡ (0, step g x)) (cap_items new t)
accepted new [] h = (tt, tt)
accepted new ((name, bit) ∷ t) (a, h) = elim (Bool-cases (new.on bit)) [
  | inl y ↦
      rw (y, cap_items)
        (
          (a.0, (accepted new t h).0),
          ((λ g. parse_cap_token-token g name bit true a), (accepted new t h).1),
        )
  | inr n ↦ elim (Bool-cases (new.off bit)) [
    | inl y ↦
        rw (n, y, cap_items)
          (
            (a.0, (accepted new t h).0),
            ((λ g. parse_cap_token-token g name bit false a), (accepted new t h).1),
          )
    | inr m ↦ rw (n, m, cap_items) (accepted new t h)
  ]
]

steps-cap_items :
    (new g : CapParam) (t : List (Str × ℕ)) (k : ℕ)
    → All IsEntry t
    → ((steps step g (cap_items new t)).on k ≡ (g.on k || has_bit t k && new.on k))
      × ((steps step g (cap_items new t)).off k
          ≡ (g.off k || has_bit t k && not (new.on k) && new.off k))
steps-cap_items new g [] k h = (ground arith, ground arith)
steps-cap_items new g ((name, bit) ∷ t) k (a, h) = elim (Bool-cases (new.on bit)) [
  | inl y ↦ ground (arith, steps-cap_items new (raise g bit true) t k h, a.2)
  | inr n ↦ elim (Bool-cases (new.off bit)) [
    | inl y ↦ ground (arith, steps-cap_items new (raise g bit false) t k h, a.2)
    | inr m ↦ ground (arith, steps-cap_items new g t k h)
  ]
]

-- Capabilities that `build_cap_str` prints into a buffer with room for all of them are read back by
-- `parse_cap`, into no capabilities or in place of others: the bits of the table that were on are on,
-- and those that were off and not on are off.
pub parse_cap-build_cap_str :
    (new : CapParam) (old : CapParam) (len k : ℕ)
    → length (text (cap_items new cap_names)) < len
    → ((parse_cap old (build_cap_str new len) true).0 ≡ 0)
      × ((parse_cap old (build_cap_str new len) true).1.on k ≡ (has_bit cap_names k && new.on k))
      × ((parse_cap old (build_cap_str new len) true).1.off k
          ≡ (has_bit cap_names k && not (new.on k) && new.off k))
unfolding parse_cap build_cap_str
parse_cap-build_cap_str new old len k h = rw (print_items-text len (cap_items new cap_names) h) (
    rw read_back
      (let (m, n) = steps-cap_items new no_caps cap_names k cap_names-IsEntry in (refl, m, n)))
  where
    read_back :
        parse_cap old (text (cap_items new cap_names)) true
        ≡ (0, steps step no_caps (cap_items new cap_names))
    read_back =
        unfold parse_cap in
        let (p, a) = accepted new cap_names cap_names-IsEntry in
        parse_tokens-text parse_cap_token step (cap_items new cap_names) no_caps p a

-- `build_cap_str` never writes behind its buffer, the NUL included.
pub length-build_cap_str :
    (new : CapParam) (len : ℕ) → 0 < len → length (build_cap_str new len) < len
unfolding build_cap_str
length-build_cap_str new len h = length-print_items len (cap_items new cap_names) h

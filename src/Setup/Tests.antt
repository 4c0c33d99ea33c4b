-- ===== src/Setup/Tests.antt =====
-- The theorem on setup/setup.server.ts at one form.
use mathplat.Common.{String, ◌≡◌, refl, some, List, [], ◌∷◌, All}
use mathplat.Common.Dict
use mathplat.Common.StrSet
use mathplat.Common.Text.{trim_start, trim_end, is_space}
use mathplat.Setup.{
  parse_env, build_env_content, value_of, database_url, build_database_url, ends_with,
}
use mathplat.Setup.Reading.{IsPlain}
use mathplat.Setup.RoundTrip.{written, parse_env-build_env_content}

abbrev encode : String → String
encode s = s

abbrev time : String
time = "2026-01-01T00:00:00.000Z"

abbrev form : List (String × String)
form = ("PORT", "8080") ∷ ("JWT_SECRET", "a b#c=d") ∷ []

plain : All (λ d. IsPlain (value_of form d)) written
unfolding Dict.get trim_start trim_end is_space ends_with StrSet.has
plain = (
  record { starts = refl; ends = refl; one_line = refl; bare = refl },
  (
    record { starts = refl; ends = refl; one_line = refl; bare = refl },
    (
      record { starts = refl; ends = refl; one_line = refl; bare = refl },
      (
        record { starts = refl; ends = refl; one_line = refl; bare = refl },
        (
          record { starts = refl; ends = refl; one_line = refl; bare = refl },
          (
            record { starts = refl; ends = refl; one_line = refl; bare = refl },
            (
              record { starts = refl; ends = refl; one_line = refl; bare = refl },
              (
                record { starts = refl; ends = refl; one_line = refl; bare = refl },
                (
                  record { starts = refl; ends = refl; one_line = refl; bare = refl },
                  (
                    record { starts = refl; ends = refl; one_line = refl; bare = refl },
                    (
                      record { starts = refl; ends = refl; one_line = refl; bare = refl },
                      (
                        record { starts = refl; ends = refl; one_line = refl; bare = refl },
                        (
                          record { starts = refl; ends = refl; one_line = refl; bare = refl },
                          (
                            record { starts = refl; ends = refl; one_line = refl; bare = refl },
                            (
                              record { starts = refl; ends = refl; one_line = refl; bare = refl },
                              (
                                record { starts = refl; ends = refl; one_line = refl; bare = refl },
                                (
                                  record {
                                    starts = refl;
                                    ends = refl;
                                    one_line = refl;
                                    bare = refl;
                                  },
                                  (
                                    record {
                                      starts = refl;
                                      ends = refl;
                                      one_line = refl;
                                      bare = refl;
                                    },
                                    (
                                      record {
                                        starts = refl;
                                        ends = refl;
                                        one_line = refl;
                                        bare = refl;
                                      },
                                      (
                                        record {
                                          starts = refl;
                                          ends = refl;
                                          one_line = refl;
                                          bare = refl;
                                        },
                                        tt,
                                      ),
                                    ),
                                  ),
                                ),
                              ),
                            ),
                          ),
                        ),
                      ),
                    ),
                  ),
                ),
              ),
            ),
          ),
        ),
      ),
    ),
  ),
)

plain_url : IsPlain (database_url encode form)
unfolding Dict.get trim_start trim_end is_space ends_with build_database_url
plain_url = record { starts = refl; ends = refl; one_line = refl; bare = refl }

abbrev file : List (String × String)
file = parse_env (build_env_content encode time form)

parse_env-build_env_content_example :
    All (λ d. Dict.get d.key file ≡ some (value_of form d)) written
    × (Dict.get "DATABASE_URL" file ≡ some (database_url encode form))
parse_env-build_env_content_example =
    parse_env-build_env_content encode time form refl plain plain_url

-- ===== src/ErrorCodes/Table/Second.antt =====
-- The assignments of lines 128 to 249 of framework/error_codes.py.
use functional_tests.Base.{List, [], ◌∷◌}
use functional_tests.ErrorCodes.{Code, assign}

abbrev pub second_codes : List Code
second_codes =
    assign "LET_MISSING_IN_ERROR" 16877 128
    ∷ assign "EXPRESSION_NON_OBJECT_ARG_ERROR" 16878 129
    ∷ assign "MAP_UNKNOWN_FIELD_ERROR" 16879 130
    ∷ assign "MAP_MISSING_INPUT_ERROR" 16880 131
    ∷ assign "MAP_MISSING_IN_ERROR" 16882 132
    ∷ assign "MAP_INPUT_NOT_ARRAY_ERROR" 16883 133
    ∷ assign "LEGACY_MIN_DISTANCE_NOT_NUMBER_ERROR" 16893 134
    ∷ assign "LEGACY_MIN_DISTANCE_NON_NEGATIVE_ERROR" 16894 135
    ∷ assign "LEGACY_MAX_DISTANCE_NOT_NUMBER_ERROR" 16895 136
    ∷ assign "OUT_ARGUMENT_TYPE_ERROR" 16990 137
    ∷ assign "ALL_ELEMENTS_TRUE_NON_ARRAY_ERROR" 17040 138
    ∷ assign "ANY_ELEMENTS_TRUE_NON_ARRAY_ERROR" 17041 139
    ∷ assign "SET_IS_SUBSET_SECOND_NOT_ARRAY_ERROR" 17042 140
    ∷ assign "SETUNION_TYPE_ERROR" 17043 141
    ∷ assign "SET_EQUALS_RUNTIME_NON_ARRAY_ERROR" 17044 142
    ∷ assign "SET_EQUALS_WRONG_ARG_COUNT_ERROR" 17045 143
    ∷ assign "SET_IS_SUBSET_FIRST_NOT_ARRAY_ERROR" 17046 144
    ∷ assign "SET_INTERSECTION_NON_ARRAY_ERROR" 17047 145
    ∷ assign "SET_DIFFERENCE_FIRST_NOT_ARRAY_ERROR" 17048 146
    ∷ assign "SET_DIFFERENCE_SECOND_NOT_ARRAY_ERROR" 17049 147
    ∷ assign "REDACT_NON_SENTINEL_ERROR" 17053 148
    ∷ assign "COND_MISSING_IF_ERROR" 17080 149
    ∷ assign "COND_MISSING_THEN_ERROR" 17081 150
    ∷ assign "COND_MISSING_ELSE_ERROR" 17082 151
    ∷ assign "COND_EXTRA_FIELD_ERROR" 17083 152
    ∷ assign "SIZE_NOT_ARRAY_ERROR" 17124 153
    ∷ assign "OUT_CAPPED_COLLECTION_ERROR" 17152 154
    ∷ assign "DISTINCT_TOO_BIG_ERROR" 17217 155
    ∷ assign "LET_UNDEFINED_VARIABLE_ERROR" 17276 156
    ∷ assign "META_NON_STRING_ERROR" 17307 157
    ∷ assign "UNSUPPORTED_META_FIELD_ERROR" 17308 158
    ∷ assign "SORT_NON_META_OBJECT_ERROR" 17312 159
    ∷ assign "MATCH_TEXT_NOT_FIRST_STAGE_ERROR" 17313 160
    ∷ assign "OUT_SPECIAL_COLLECTION_ERROR" 17385 161
    ∷ assign "GROUP_INCLUSION_STYLE_ERROR" 17390 162
    ∷ assign "DATETOSTRING_INVALID_FORMAT_TYPE_ERROR" 18533 163
    ∷ assign "DATETOSTRING_UNKNOWN_FIELD_ERROR" 18534 164
    ∷ assign "DATETOSTRING_INVALID_FORMAT_ERROR" 18536 165
    ∷ assign "DATETOSTRING_YEAR_RANGE_ERROR" 18537 166
    ∷ assign "DATETOSTRING_MISSING_DATE_ERROR" 18628 167
    ∷ assign "DATETOSTRING_NON_OBJECT_ERROR" 18629 168
    ∷ assign "KILLOP_OPID_NOT_INT32_ERROR" 26823 169
    ∷ assign "EMPTY_DB_NAME_ERROR" 28539 170
    ∷ assign "FILTER_NON_OBJECT_ARG_ERROR" 28646 171
    ∷ assign "FILTER_UNKNOWN_FIELD_ERROR" 28647 172
    ∷ assign "FILTER_MISSING_INPUT_ERROR" 28648 173
    ∷ assign "FILTER_MISSING_COND_ERROR" 28650 174
    ∷ assign "FILTER_INPUT_NOT_ARRAY_ERROR" 28651 175
    ∷ assign "SUBSTR_CONTINUATION_BYTE_START_ERROR" 28656 176
    ∷ assign "SUBSTR_MID_CHARACTER_END_ERROR" 28657 177
    ∷ assign "CONCAT_ARRAYS_NOT_ARRAY_ERROR" 28664 178
    ∷ assign "EXPRESSION_ARITY_ERROR" 28667 179
    ∷ assign "ABS_OVERFLOW_ERROR" 28680 180
    ∷ assign "ARRAY_ELEM_AT_ARRAY_TYPE_ERROR" 28689 181
    ∷ assign "ARRAY_ELEM_AT_INDEX_TYPE_ERROR" 28690 182
    ∷ assign "ARRAY_ELEM_AT_INDEX_NOT_INTEGRAL_ERROR" 28691 183
    ∷ assign "SQRT_NEGATIVE_INPUT_ERROR" 28714 184
    ∷ assign "SLICE_INVALID_ARGUMENT_ERROR" 28724 185
    ∷ assign "EXPRESSION_SLICE_ARG_NOT_NUMERIC_ERROR" 28725 186
    ∷ assign "EXPRESSION_SLICE_ARG_NOT_INTEGRAL_ERROR" 28726 187
    ∷ assign "EXPRESSION_SLICE_N_NOT_POSITIVE_ERROR" 28729 188
    ∷ assign "SAMPLE_SPEC_NOT_OBJECT_ERROR" 28745 189
    ∷ assign "SAMPLE_SIZE_NOT_NUMERIC_ERROR" 28746 190
    ∷ assign "SAMPLE_SIZE_NOT_POSITIVE_ERROR" 28747 191
    ∷ assign "SAMPLE_UNRECOGNIZED_OPTION_ERROR" 28748 192
    ∷ assign "SAMPLE_SIZE_MISSING_ERROR" 28749 193
    ∷ assign "LOG_NON_NUMERIC_VALUE_ERROR" 28756 194
    ∷ assign "LOG_NON_NUMERIC_BASE_ERROR" 28757 195
    ∷ assign "LOG_NON_POSITIVE_VALUE_ERROR" 28758 196
    ∷ assign "LOG_INVALID_BASE_ERROR" 28759 197
    ∷ assign "LOG10_NON_POSITIVE_INPUT_ERROR" 28761 198
    ∷ assign "POW_NON_NUMERIC_BASE_ERROR" 28762 199
    ∷ assign "POW_NON_NUMERIC_EXP_ERROR" 28763 200
    ∷ assign "POW_BASE_ZERO_EXP_NEGATIVE_ERROR" 28764 201
    ∷ assign "NON_NUMERIC_TYPE_MISMATCH_ERROR" 28765 202
    ∷ assign "LN_NON_POSITIVE_INPUT_ERROR" 28766 203
    ∷ assign "INDEX_STATS_ARG_ERROR" 28803 204
    ∷ assign "UNWIND_PATH_TYPE_ERROR" 28808 205
    ∷ assign "UNWIND_PRESERVE_NULL_TYPE_ERROR" 28809 206
    ∷ assign "UNWIND_INCLUDE_ARRAY_INDEX_TYPE_ERROR" 28810 207
    ∷ assign "UNWIND_UNRECOGNIZED_FIELD_ERROR" 28811 208
    ∷ assign "UNWIND_MISSING_PATH_ERROR" 28812 209
    ∷ assign "UNWIND_PATH_NO_DOLLAR_ERROR" 28818 210
    ∷ assign "UNWIND_INCLUDE_ARRAY_INDEX_DOLLAR_PREFIX_ERROR" 28822 211
    ∷ assign "UNSET_SPEC_TYPE_ERROR" 31002 212
    ∷ assign "REGEX_MISSING_INPUT_ERROR" 31022 213
    ∷ assign "REGEX_MISSING_REGEX_ERROR" 31023 214
    ∷ assign "REGEX_UNKNOWN_FIELD_ERROR" 31024 215
    ∷ assign "KEY_FIELD_NULL_BYTE_ERROR" 31032 216
    ∷ assign "PARTIAL_TRANSACTION_NOT_ALLOWED_ERROR" 31056 217
    ∷ assign "OUT_OF_RANGE_CONVERSION_ERROR" 31109 218
    ∷ assign "UNSET_EMPTY_ARRAY_ERROR" 31119 219
    ∷ assign "UNSET_ARRAY_ELEMENT_TYPE_ERROR" 31120 220
    ∷ assign "SORT_ILLEGAL_META_ERROR" 31138 221
    ∷ assign "COLLSTATS_NON_EMPTY_OPTION_ERROR" 31170 222
    ∷ assign "PROJECT_PATH_COLLISION_CHILD_AFTER_PARENT_ERROR" 31249 223
    ∷ assign "PROJECT_PATH_COLLISION_PARENT_AFTER_CHILD_ERROR" 31250 224
    ∷ assign "PROJECT_OPERATOR_IN_EXCLUSION_ERROR" 31252 225
    ∷ assign "PROJECT_INCLUSION_IN_EXCLUSION_ERROR" 31253 226
    ∷ assign "PROJECT_EXCLUSION_IN_INCLUSION_ERROR" 31254 227
    ∷ assign "PROJECT_ELEMATCH_CONFLICT_ERROR" 31255 228
    ∷ assign "PROJECT_ELEMATCH_POSITIONAL_CONFLICT_ERROR" 31256 229
    ∷ assign "PROJECTION_INVALID_OBJECT_VALUE_ERROR" 31271 230
    ∷ assign "ELEMMATCH_OBJECT_REQUIRED_ERROR" 31274 231
    ∷ assign "ELEMMATCH_NESTED_FIELD_ERROR" 31275 232
    ∷ assign "POSITIONAL_MULTIPLE_ERROR" 31276 233
    ∷ assign "HASHED_COMPOUND_MULTIPLE_ERROR" 31303 234
    ∷ assign "PROJECT_INVALID_LITERAL_VALUE_ERROR" 31308 235
    ∷ assign "PROJECT_VALUE_IN_EXCLUSION_ERROR" 31310 236
    ∷ assign "MERGE_SYSTEM_COLLECTION_ERROR" 31319 237
    ∷ assign "MERGE_RESERVED_DATABASE_ERROR" 31320 238
    ∷ assign "OUT_RESTRICTED_DATABASE_ERROR" 31321 239
    ∷ assign "POSITIONAL_IN_AGGREGATE_ERROR" 31324 240
    ∷ assign "PROJECT_UNKNOWN_EXPRESSION_ERROR" 31325 241
    ∷ assign "POSITIONAL_MIDDLE_OF_PATH_ERROR" 31394 242
    ∷ assign "UNION_WITH_SUB_PIPELINE_NOT_ALLOWED_ERROR" 31441 243
    ∷ assign "MERGE_ON_DUPLICATE_FIELDS_ERROR" 31465 244
    ∷ assign "CANNOT_MIX_GEO_WITH_OTHER_OP_ERROR" 34413 245
    ∷ assign "REVERSE_ARRAY_NOT_ARRAY_ERROR" 34435 246
    ∷ assign "RANGE_START_NOT_INT32_ERROR" 34443 247
    ∷ assign "RANGE_START_NOT_INTEGRAL_ERROR" 34444 248
    ∷ assign "RANGE_END_NOT_NUMERIC_ERROR" 34445 249
    ∷ []

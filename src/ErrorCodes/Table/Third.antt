-- ===== src/ErrorCodes/Table/Third.antt =====
-- The assignments of lines 250 to 371 of framework/error_codes.py.
use functional_tests.Base.{List, [], ◌∷◌}
use functional_tests.ErrorCodes.{Code, assign}

abbrev pub third_codes : List Code
third_codes =
    assign "RANGE_END_NOT_INT32_ERROR" 34446 250
    ∷ assign "RANGE_STEP_NOT_NUMERIC_ERROR" 34447 251
    ∷ assign "RANGE_STEP_NOT_INT32_ERROR" 34448 252
    ∷ assign "RANGE_STEP_ZERO_ERROR" 34449 253
    ∷ assign "SUBSTRCP_INDEX_TYPE_ERROR" 34450 254
    ∷ assign "SUBSTRCP_INDEX_NON_INT_ERROR" 34451 255
    ∷ assign "SUBSTRCP_COUNT_TYPE_ERROR" 34452 256
    ∷ assign "SUBSTRCP_COUNT_NON_INT_ERROR" 34453 257
    ∷ assign "SUBSTRCP_COUNT_NEGATIVE_ERROR" 34454 258
    ∷ assign "SUBSTRCP_INDEX_NEGATIVE_ERROR" 34455 259
    ∷ assign "ZIP_INPUTS_NOT_ARRAY_ERROR" 34460 260
    ∷ assign "ZIP_INPUT_ELEMENT_NOT_ARRAY_ERROR" 34461 261
    ∷ assign "ZIP_DEFAULTS_NOT_ARRAY_ERROR" 34462 262
    ∷ assign "ZIP_USE_LONGEST_NOT_BOOL_ERROR" 34463 263
    ∷ assign "ZIP_UNKNOWN_FIELD_ERROR" 34464 264
    ∷ assign "ZIP_MISSING_INPUTS_ERROR" 34465 265
    ∷ assign "ZIP_DEFAULTS_WITHOUT_LONGEST_ERROR" 34466 266
    ∷ assign "ZIP_DEFAULTS_LENGTH_MISMATCH_ERROR" 34467 267
    ∷ assign "ZIP_REQUIRES_ARRAY_ELEMENT_ERROR" 34468 268
    ∷ assign "STRLENCP_TYPE_ERROR" 34471 269
    ∷ assign "STRLENBYTES_TYPE_ERROR" 34473 270
    ∷ assign "SWITCH_NON_OBJECT_ARG_ERROR" 40060 271
    ∷ assign "SWITCH_BRANCHES_NOT_ARRAY_ERROR" 40061 272
    ∷ assign "SWITCH_BRANCH_NOT_OBJECT_ERROR" 40062 273
    ∷ assign "SWITCH_UNKNOWN_BRANCH_FIELD_ERROR" 40063 274
    ∷ assign "SWITCH_MISSING_CASE_ERROR" 40064 275
    ∷ assign "SWITCH_MISSING_THEN_ERROR" 40065 276
    ∷ assign "SWITCH_UNKNOWN_TOP_LEVEL_FIELD_ERROR" 40067 277
    ∷ assign "SWITCH_EMPTY_BRANCHES_ERROR" 40068 278
    ∷ assign "SWITCH_NO_MATCH_NO_DEFAULT_ERROR" 40069 279
    ∷ assign "REDUCE_NON_OBJECT_ARG_ERROR" 40075 280
    ∷ assign "REDUCE_UNKNOWN_FIELD_ERROR" 40076 281
    ∷ assign "REDUCE_MISSING_INPUT_ERROR" 40077 282
    ∷ assign "REDUCE_MISSING_INIT_ERROR" 40078 283
    ∷ assign "REDUCE_MISSING_IN_ERROR" 40079 284
    ∷ assign "REDUCE_INPUT_NOT_ARRAY_ERROR" 40080 285
    ∷ assign "EXPRESSION_IN_NOT_ARRAY_ERROR" 40081 286
    ∷ assign "SPLIT_STRING_TYPE_ERROR" 40085 287
    ∷ assign "SPLIT_EMPTY_SEPARATOR_ERROR" 40087 288
    ∷ assign "INDEX_OF_ARRAY_NOT_ARRAY_ERROR" 40090 289
    ∷ assign "INDEXOFBYTES_STRING_TYPE_ERROR" 40091 290
    ∷ assign "INDEXOFBYTES_SUBSTRING_TYPE_ERROR" 40092 291
    ∷ assign "INDEXOFCP_STRING_TYPE_ERROR" 40093 292
    ∷ assign "INDEXOFCP_SUBSTRING_TYPE_ERROR" 40094 293
    ∷ assign "INDEXOF_INDEX_TYPE_ERROR" 40096 294
    ∷ assign "INDEXOF_NEGATIVE_INDEX_ERROR" 40097 295
    ∷ assign "COUNT_FIELD_TYPE_ERROR" 40156 296
    ∷ assign "COUNT_FIELD_EMPTY_ERROR" 40157 297
    ∷ assign "COUNT_FIELD_DOLLAR_PREFIX_ERROR" 40158 298
    ∷ assign "COUNT_FIELD_NULL_BYTE_ERROR" 40159 299
    ∷ assign "COUNT_FIELD_DOT_ERROR" 40160 300
    ∷ assign "FACET_SPEC_NOT_OBJECT_ERROR" 40169 301
    ∷ assign "FACET_PIPELINE_NOT_ARRAY_ERROR" 40170 302
    ∷ assign "FACET_PIPELINE_STAGE_NOT_OBJECT_ERROR" 40171 303
    ∷ assign "CONFLICTING_PATH_ERROR" 40176 304
    ∷ assign "MULTIPLE_EXPRESSIONS_ERROR" 40181 305
    ∷ assign "DOTTED_FIELD_IN_SUB_OBJECT_ERROR" 40183 306
    ∷ assign "BUCKET_BOUNDARIES_NOT_CONSTANT_ERROR" 40191 307
    ∷ assign "BUCKET_BOUNDARIES_MIN_LENGTH_ERROR" 40192 308
    ∷ assign "BUCKET_BOUNDARIES_MIXED_TYPES_ERROR" 40193 309
    ∷ assign "BUCKET_BOUNDARIES_NOT_SORTED_ERROR" 40194 310
    ∷ assign "BUCKET_OUTPUT_NOT_OBJECT_ERROR" 40196 311
    ∷ assign "BUCKET_UNRECOGNIZED_OPTION_ERROR" 40197 312
    ∷ assign "BUCKET_MISSING_REQUIRED_ERROR" 40198 313
    ∷ assign "BUCKET_DEFAULT_RANGE_ERROR" 40199 314
    ∷ assign "BUCKET_BOUNDARIES_NOT_ARRAY_ERROR" 40200 315
    ∷ assign "BUCKET_ARG_NOT_OBJECT_ERROR" 40201 316
    ∷ assign "BUCKET_GROUPBY_NOT_EXPRESSION_ERROR" 40202 317
    ∷ assign "QUERY_METADATA_NOT_AVAILABLE_ERROR" 40218 318
    ∷ assign "REPLACE_ROOT_NON_OBJECT_ERROR" 40228 319
    ∷ assign "REPLACE_ROOT_SPEC_NOT_OBJECT_ERROR" 40229 320
    ∷ assign "BUCKET_OUTPUT_NOT_ACCUMULATOR_ERROR" 40234 321
    ∷ assign "BUCKET_OUTPUT_DOT_ERROR" 40235 322
    ∷ assign "BUCKET_OUTPUT_DOLLAR_PREFIX_ERROR" 40236 323
    ∷ assign "GROUP_ACCUMULATOR_ARRAY_ARGUMENT_ERROR" 40237 324
    ∷ assign "GROUP_ACCUMULATOR_MULTIPLE_KEYS_ERROR" 40238 325
    ∷ assign "BUCKET_AUTO_GROUPBY_NOT_EXPRESSION_ERROR" 40239 326
    ∷ assign "BUCKET_AUTO_ARG_NOT_OBJECT_ERROR" 40240 327
    ∷ assign "BUCKET_AUTO_BUCKETS_NOT_NUMERIC_ERROR" 40241 328
    ∷ assign "BUCKET_AUTO_BUCKETS_NOT_INT_ERROR" 40242 329
    ∷ assign "BUCKET_AUTO_BUCKETS_NOT_POSITIVE_ERROR" 40243 330
    ∷ assign "BUCKET_AUTO_OUTPUT_NOT_OBJECT_ERROR" 40244 331
    ∷ assign "BUCKET_AUTO_UNRECOGNIZED_OPTION_ERROR" 40245 332
    ∷ assign "BUCKET_AUTO_MISSING_REQUIRED_ERROR" 40246 333
    ∷ assign "BUCKET_AUTO_GRANULARITY_UNKNOWN_ERROR" 40257 334
    ∷ assign "BUCKET_AUTO_GRANULARITY_NON_NUMERIC_ERROR" 40258 335
    ∷ assign "BUCKET_AUTO_GRANULARITY_NAN_ERROR" 40259 336
    ∷ assign "BUCKET_AUTO_GRANULARITY_NEGATIVE_ERROR" 40260 337
    ∷ assign "BUCKET_AUTO_GRANULARITY_NOT_STRING_ERROR" 40261 338
    ∷ assign "SET_SPECIFICATION_NOT_OBJECT_ERROR" 40272 339
    ∷ assign "PIPELINE_STAGE_EXTRA_FIELD_ERROR" 40323 340
    ∷ assign "UNKNOWN_PIPELINE_STAGE_ERROR" 40324 341
    ∷ assign "FIELD_PATH_EMPTY_ERROR" 40352 342
    ∷ assign "FIELD_PATH_TRAILING_DOT_ERROR" 40353 343
    ∷ assign "ARRAY_TO_OBJECT_NOT_ARRAY_ERROR" 40386 344
    ∷ assign "OBJECT_TO_ARRAY_NOT_OBJECT_ERROR" 40390 345
    ∷ assign "ARRAY_TO_OBJECT_MIXED_KV_THEN_PAIR_ERROR" 40391 346
    ∷ assign "ARRAY_TO_OBJECT_INVALID_KV_DOC_ERROR" 40392 347
    ∷ assign "ARRAY_TO_OBJECT_WRONG_FIELD_NAMES_ERROR" 40393 348
    ∷ assign "ARRAY_TO_OBJECT_KV_KEY_NOT_STRING_ERROR" 40394 349
    ∷ assign "ARRAY_TO_OBJECT_PAIR_KEY_NOT_STRING_ERROR" 40395 350
    ∷ assign "ARRAY_TO_OBJECT_MIXED_PAIR_THEN_KV_ERROR" 40396 351
    ∷ assign "ARRAY_TO_OBJECT_INVALID_PAIR_ERROR" 40397 352
    ∷ assign "ARRAY_TO_OBJECT_INVALID_ELEMENT_ERROR" 40398 353
    ∷ assign "MERGE_OBJECTS_INVALID_TYPE_ERROR" 40400 354
    ∷ assign "DUPLICATE_FIELD_ERROR" 40413 355
    ∷ assign "MISSING_FIELD_ERROR" 40414 356
    ∷ assign "UNRECOGNIZED_COMMAND_FIELD_ERROR" 40415 357
    ∷ assign "INVALID_TIMEZONE_ERROR" 40485 358
    ∷ assign "DATEFROMPARTS_MIXING_ERROR" 40489 359
    ∷ assign "DATEFROMPARTS_INVALID_TYPE_ERROR" 40515 360
    ∷ assign "DATEFROMPARTS_MISSING_YEAR_ERROR" 40516 361
    ∷ assign "INVALID_TIMEZONE_TYPE_ERROR" 40517 362
    ∷ assign "DATEFROMPARTS_UNKNOWN_FIELD_ERROR" 40518 363
    ∷ assign "DATEFROMPARTS_NON_OBJECT_ERROR" 40519 364
    ∷ assign "DATETOPARTS_UNKNOWN_FIELD_ERROR" 40520 365
    ∷ assign "DATETOPARTS_ISO8601_TYPE_ERROR" 40521 366
    ∷ assign "DATETOPARTS_MISSING_DATE_ERROR" 40522 367
    ∷ assign "DATEFROMPARTS_YEAR_OUT_OF_RANGE_ERROR" 40523 368
    ∷ assign "DATETOPARTS_NON_OBJECT_ERROR" 40524 369
    ∷ assign "DATEFROMPARTS_MIXING_ISO_WITH_CALENDAR_ERROR" 40525 370
    ∷ assign "ISO_DATE_UNKNOWN_FIELD_ERROR" 40535 371
    ∷ []
